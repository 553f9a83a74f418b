-- ===== src/Pak/Format.antt =====
-- src/controller_pak.cpp, `format_empty`: the image of a Controller Pak that holds no notes.
-- The proofs are in the modules below.
pub mod Checksum
pub mod Layout
use hybrid_heaven_recomp.Prelude.{
  ℕ, zero, suc, ◌+◌, ◌-◌, ◌*◌, ◌/◌, ◌%◌, ◌^◌, List, [], ◌∷◌, ◌++◌, take, replicate, slice, memcpy,
}

abbrev pub pak_size : ℕ
pak_size = 0x8000

abbrev pub block_size : ℕ
block_size = 32

abbrev pub block_count : ℕ
block_count = pak_size / block_size

-- `sum_bytes`: the sum is masked after each byte.
sum_from : ℕ → List ℕ → ℕ
sum_from sum [] = sum
sum_from sum (b ∷ bs) = sum_from ((sum + b) % 2 ^ 16) bs

pub sum_bytes : List ℕ → ℕ
unfolding sum_from
sum_bytes bs = sum_from 0 bs

-- The loop over the halfwords of the ID block, two bytes a round, with `checksum` and `inverted`.
-- The low byte of `id[i] << 8` is clear, so `|` is `+`; the complement of a halfword is
-- `0xffff - halfword`.
id_sums : List ℕ → ℕ → ℕ → ℕ × ℕ
id_sums [] checksum inverted = (checksum, inverted)
id_sums (hi ∷ []) checksum inverted = (checksum, inverted)
id_sums (hi ∷ lo ∷ rest) checksum inverted =
    let halfword = (hi * 256 + lo) % 2 ^ 16 in
    id_sums rest ((checksum + halfword) % 2 ^ 16) ((inverted + (0xffff - halfword)) % 2 ^ 16)

-- The two bytes of a `uint16_t`, high byte first.
abbrev pub halfword_bytes : ℕ → List ℕ
halfword_bytes h = h / 256 % 256 ∷ h % 256 ∷ []

-- Bytes 0x1C to 0x1F of the block are the checksum of the first 28 bytes and its complement's.
unfoldable pub seal_id : List ℕ → List ℕ
unfolding id_sums slice memcpy
seal_id id =
    let (checksum, inverted) = id_sums (slice 0 0x1c id) 0 0 in
    memcpy id 0x1c (halfword_bytes checksum ++ halfword_bytes inverted)

-- `id` before its checksums: deviceid 1, one bank, version 0.
abbrev pub blank_id : List ℕ
blank_id = replicate 0x18 0 ++ 0x00 ∷ 0x01 ∷ 0x01 ∷ 0x00 ∷ 0 ∷ 0 ∷ 0 ∷ 0 ∷ []

pub copy_id : List ℕ → List ℕ → List ℕ → List ℕ
unfolding memcpy
copy_id id [] m = m
copy_id id (block ∷ blocks) m = copy_id id blocks (memcpy m (block * 32) id)

-- The loop that marks pages free, with the rounds left and the page.
mark_free : ℕ → ℕ → List ℕ → List ℕ
unfolding memcpy
mark_free zero page inode = inode
mark_free (suc n) page inode = mark_free n (page + 1) (memcpy inode (page * 2) (0x00 ∷ 0x03 ∷ []))

-- The inode table: every data page free, and the checksum of their entries in entry 0.
pub inode_table : List ℕ
unfolding mark_free sum_bytes slice memcpy
inode_table =
    let inode = mark_free (128 - 5) 5 (replicate 256 0) in
    memcpy inode 0 (0x00 ∷ sum_bytes (slice (5 * 2) ((128 - 5) * 2) inode) % 256 ∷ [])

-- `assign` drops whatever the buffer held.
unfoldable pub format_empty : List ℕ
unfolding seal_id copy_id inode_table memcpy
format_empty =
    let m = copy_id (seal_id blank_id) (1 ∷ 3 ∷ 4 ∷ 6 ∷ []) (replicate pak_size 0) in
    memcpy (memcpy m (1 * 256) inode_table) (2 * 256) inode_table
