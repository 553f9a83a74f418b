-- ===== src/Pak/Format/Checksum.antt =====
-- The checksums of the ID block and of the inode table, against what libultra recomputes.
use native.Mathlib.Nat.{zero-add, suc-add}
use hybrid_heaven_recomp.Prelude.{
  zero, ◌<◌, ℕ, suc, ◌+◌, ◌-◌, ◌*◌, ◌%◌, ◌^◌, ◌≤◌, ◌≡◌, refl, List, [], ◌∷◌, ◌++◌, arith, length,
  get_or, slice, memcpy, slice-memcpy_before,
}
use hybrid_heaven_recomp.Pak.Format.{sum_from, id_sums, seal_id, halfword_bytes}

-- The plain sum of bytes, and of big-endian halfwords and of their complements.
abbrev pub total : List ℕ → ℕ
total [] = 0
total (b ∷ bs) = b + total bs

abbrev pub total_halfwords : List ℕ → ℕ
total_halfwords [] = 0
total_halfwords (hi ∷ []) = 0
total_halfwords (hi ∷ lo ∷ rest) = (hi * 256 + lo) % 2 ^ 16 + total_halfwords rest

abbrev pub total_complements : List ℕ → ℕ
total_complements [] = 0
total_complements (hi ∷ []) = 0
total_complements (hi ∷ lo ∷ rest) = (0xffff - (hi * 256 + lo) % 2 ^ 16) + total_complements rest

-- The halfword at a byte offset.
abbrev pub halfword_at : ℕ → List ℕ → ℕ
halfword_at i bs = get_or bs i 0 * 256 + get_or bs (suc i) 0

sum_from-total : (sum : ℕ) (bs : List ℕ) → sum_from sum bs % 2 ^ 16 ≡ (sum + total bs) % 2 ^ 16
unfolding sum_from
sum_from-total sum [] = omega arith
sum_from-total sum (b ∷ bs) = omega (arith, sum_from-total ((sum + b) % 2 ^ 16) bs)

id_sums-totals :
    (bs : List ℕ) (c v : ℕ)
    → ((id_sums bs c v).0 % 2 ^ 16 ≡ (c + total_halfwords bs) % 2 ^ 16)
      × ((id_sums bs c v).1 % 2 ^ 16 ≡ (v + total_complements bs) % 2 ^ 16)
unfolding id_sums
id_sums-totals [] c v = omega arith
id_sums-totals (hi ∷ []) c v = omega arith
id_sums-totals (hi ∷ lo ∷ rest) c v =
    let h = (hi * 256 + lo) % 2 ^ 16 in
    omega (arith, id_sums-totals rest ((c + h) % 2 ^ 16) ((v + (0xffff - h)) % 2 ^ 16))

get_or-memcpy :
    {A : Type 0} (xs : List A) (off : ℕ) (src : List A) (k : ℕ) (d : A)
    → k < length src
    → off + length src ≤ length xs
    → get_or (memcpy xs off src) (off + k) d ≡ get_or src k d
unfolding memcpy
get_or-memcpy xs zero [] k d h fits = absurd (omega arith)
get_or-memcpy [] zero (s ∷ ss) k d h fits = absurd (omega arith)
get_or-memcpy (x ∷ xs) zero (s ∷ ss) zero d h fits = refl
get_or-memcpy (x ∷ xs) zero (s ∷ ss) (suc k) d h fits =
    rw zero-add
      (let ih = get_or-memcpy xs zero ss k d (omega arith) (omega arith) in rw zero-add at ih)
get_or-memcpy [] (suc off) src k d h fits = absurd (omega arith)
get_or-memcpy (x ∷ xs) (suc off) src k d h fits =
    rw suc-add (get_or-memcpy xs off src k d h (omega arith))

-- What libultra checks of an ID block before it trusts the pak.
pub record IsIdBlock (block : List ℕ) : Type 0 where
  pub checksum : halfword_at 0x1c block ≡ total_halfwords (slice 0 0x1c block) % 2 ^ 16
  pub inverted : halfword_at 0x1e block ≡ total_complements (slice 0 0x1c block) % 2 ^ 16

-- Whatever the 28 bytes of an ID block of 32 bytes are, the two checksums that the code stores
-- behind them are the sum of their halfwords and of the halfwords' complements, and the 28 bytes
-- are kept.
pub seal_id-IsIdBlock :
    (id : List ℕ)
    → length id ≡ 32
    → IsIdBlock (seal_id id) × (slice 0 0x1c (seal_id id) ≡ slice 0 0x1c id)
unfolding seal_id
seal_id-IsIdBlock id h =
    let c : ℕ = (id_sums (slice 0 0x1c id) 0 0).0 in
    let v : ℕ = (id_sums (slice 0 0x1c id) 0 0).1 in
    let src : List ℕ = halfword_bytes c ++ halfword_bytes v in
    let kept = slice-memcpy_before id 0x1c src 0 0x1c (omega arith) in
    let sums = id_sums-totals (slice 0 0x1c id) 0 0 in
    let stored : (k : ℕ) → k < 4 → get_or (memcpy id 0x1c src) (0x1c + k) 0 ≡ get_or src k 0 =
      λ k p. get_or-memcpy id 0x1c src k 0 p (omega arith) in
    (
      record {
        checksum = rw kept (omega (arith, stored 0 (omega arith), stored 1 (omega arith), sums));
        inverted = rw kept (omega (arith, stored 2 (omega arith), stored 3 (omega arith), sums));
      },
      kept,
    )
