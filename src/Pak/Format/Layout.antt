-- ===== src/Pak/Format/Layout.antt =====
-- Where `format_empty` puts what: the copies of the ID block, the two inode tables, the free pages.
use hybrid_heaven_recomp.Prelude.{
  ℕ, ◌*◌, ◌%◌, ◌≤◌, ◌<◌, ◌≡◌, refl, ◌⊎◌, inl, inr, List, arith, length, get_or, slice, replicate,
  true, Bool, ◌||◌, ◌==◌, ltb, passes, passes-entry,
}
use hybrid_heaven_recomp.Pak.Format.{seal_id, blank_id, inode_table, format_empty, pak_size}
use hybrid_heaven_recomp.Pak.Format.Checksum.{IsIdBlock, seal_id-IsIdBlock, halfword_at, total}

-- A formatted pak that holds no note, as libultra's layout has it.
pub record IsFormatted (m : List ℕ) : Type 0 where
  pub size : length m ≡ pak_size
  -- Four copies of a valid ID block, with the valid bit of `deviceid` and one bank.
  pub ids :
      (block : ℕ)
      → (block ≡ 1) ⊎ (block ≡ 3) ⊎ (block ≡ 4) ⊎ (block ≡ 6)
      → IsIdBlock (slice (block * 32) 32 m)
        × (halfword_at 0x18 (slice (block * 32) 32 m) ≡ 1)
        × (get_or (slice (block * 32) 32 m) 0x1a 0 ≡ 1)
  -- The backup of the inode table is the table.
  pub backup : slice 0x200 256 m ≡ slice 0x100 256 m
  pub inode_sum : get_or (slice 0x100 256 m) 1 0 ≡ total (slice 0x10a 246 m) % 256
  pub free : (page : ℕ) → 5 ≤ page → page < 128 → halfword_at (page * 2) (slice 0x100 256 m) ≡ 3
  pub no_notes : slice 0x300 512 m ≡ replicate 512 0

id_copy :
    (block : ℕ)
    → (block ≡ 1) ⊎ (block ≡ 3) ⊎ (block ≡ 4) ⊎ (block ≡ 6)
    → slice (block * 32) 32 format_empty ≡ seal_id blank_id
unfolding format_empty slice
id_copy block (inl e) = rw e
id_copy block (inr (inl e)) = rw e
id_copy block (inr (inr (inl e))) = rw e
id_copy block (inr (inr (inr e))) = rw e

blank-IsIdBlock : IsIdBlock (seal_id blank_id)
blank-IsIdBlock = (seal_id-IsIdBlock blank_id refl).0

inode_copy : slice 0x100 256 format_empty ≡ inode_table
unfolding format_empty slice
inode_copy = refl

abbrev is_free : ℕ → Bool
is_free page = ltb page 5 || halfword_at (page * 2) inode_table == 3

free_table : passes is_free 128 ≡ true
unfolding passes inode_table
free_table = refl

free_page : (page : ℕ) → 5 ≤ page → page < 128 → halfword_at (page * 2) inode_table ≡ 3
free_page page lo hi = ground (arith, passes-entry is_free 128 free_table page hi)

pub format_empty-IsFormatted : IsFormatted format_empty
unfolding format_empty slice
format_empty-IsFormatted = record {
  size = refl;
  ids = λ block h. rw (id_copy block h) (blank-IsIdBlock, refl, refl);
  backup = refl;
  inode_sum = refl;
  free = λ page lo hi. rw inode_copy (free_page page lo hi);
  no_notes = refl;
}

pub length-format_empty : length format_empty ≡ pak_size
length-format_empty = format_empty-IsFormatted.size
