-- ===== src/Pak/Store/Blocks.antt =====
-- The store as an array of blocks: what a read returns, and what a write changes.
use native.Mathlib.Decide.{ℕ_discrete, dec_lt}
use hybrid_heaven_recomp.Prelude.{
  ℕ, zero, suc, ◌+◌, ◌*◌, ◌≤◌, ◌<◌, ◌≡◌, refl, ◌∙◌, inl, inr, true, false, ◌&&◌, none, some, List,
  arith, length, slice, length-slice, memcpy, ==_refl, memcpy-slice, slice-memcpy_self,
  slice-memcpy_before, slice-memcpy_after, bytes_eq, bytes_eq→eq, ◌==◌, if◌then◌else◌, update,
  Bool-cases, ℤ, pos, negsuc, index,
}
use hybrid_heaven_recomp.Pak.Format.{block_size, block_count}
use hybrid_heaven_recomp.Pak.Store.{
  Store, valid_block, ensure_loaded, read_block, write_block, flush_port, flush_from, flush,
}
use hybrid_heaven_recomp.Pak.Store.Invariant.{
  IsValid, image, length-image, image-ensure_loaded, loaded-ensure_loaded, pak-ensure_loaded,
  disk_image-write_ne,
}

-- The 32 bytes of block `b` of the pak in `port`.
unfoldable pub block : Store → ℕ → ℕ → List ℕ
block s port b = slice (b * block_size) block_size (image s port)

-- A read of a port and a block in range returns the block and changes no pak; any other read is
-- refused and changes nothing at all.
pub read_block-eq-block :
    (s : Store) (port b : ℤ)
    → ((read_block s port b).1
        ≡ (if valid_block port b then some (block s (index port) (index b)) else none))
      × ((q : ℕ) → image (read_block s port b).0 q ≡ image s q)
      × (valid_block port b ≡ false → (read_block s port b).0 ≡ s)
unfolding read_block block
read_block-eq-block s port b = (
  ground (arith, pak-ensure_loaded s (index port)),
  λ q. ground (arith, image-ensure_loaded s (index port) q),
  λ h. ground arith,
)

-- A block of a buffer in which another block was written.
slice-memcpy_block :
    (xs bytes : List ℕ) (b c : ℕ)
    → length bytes ≡ block_size
    → b * block_size + block_size ≤ length xs
    → slice (c * block_size) block_size (memcpy xs (b * block_size) bytes)
      ≡ (if b == c then bytes else slice (c * block_size) block_size xs)
slice-memcpy_block xs bytes b c h fits = elim (dec_lt c b) [
  | yes p ↦ ground (
    arith,
    slice-memcpy_before xs (b * block_size) bytes (c * block_size) block_size (omega arith),
  )
  | no p ↦ elim (ℕ_discrete b c) [
    | yes e ↦
        rw (← e)
          (rw (==_refl b) (rw h at (slice-memcpy_self xs (b * block_size) bytes (omega arith))))
    | no ne ↦ ground (
      arith,
      slice-memcpy_after xs (b * block_size) bytes (c * block_size) block_size (omega arith),
    )
  ]
]

image-update :
    (s : Store) (p q : ℕ) (m : List ℕ)
    → s.loaded p ≡ true
    → image (record s { pak = update s.pak p m; dirty = update s.dirty p true }) q
      ≡ (if p == q then m else image s q)
unfolding image
image-update s p q m l = ground arith

-- What each port holds after a write.
image-write_block :
    (s : Store) (port b : ℤ) (bytes : List ℕ) (q : ℕ)
    → valid_block port b ≡ true
    → IsValid s
    → length bytes ≡ block_size
    → image (write_block s port b bytes).0 q
      ≡ (if index port == q then memcpy (image s q) (index b * block_size) bytes else image s q)
unfolding write_block
image-write_block s port b bytes q h v l =
    let p : ℕ = index port in
    let s' = ensure_loaded s p in
    let off : ℕ = index b * block_size in
    elim (Bool-cases (bytes_eq (slice off block_size (s'.pak p)) bytes)) [
      | inl e ↦
          rw (h, e)
            (ground (
              arith,
              image-ensure_loaded s p q,
              pak-ensure_loaded s p,
              bytes_eq→eq (slice off block_size (s'.pak p)) bytes e,
              memcpy-slice (image s p) off block_size,
            ))
      | inr e ↦
          rw (h, e)
            (ground (
              arith,
              image-update s' p q (memcpy (s'.pak p) off bytes) (loaded-ensure_loaded s p),
              image-ensure_loaded s p q,
              pak-ensure_loaded s p,
            ))
    ]

valid_block-lt :
    (port b : ℤ) → valid_block port b ≡ true → (index port < 4) × (index b < block_count)
valid_block-lt (pos p) (pos c) h = ground arith
valid_block-lt (pos p) (negsuc c) h = ground arith
valid_block-lt (negsuc p) b h = ground arith

block-write_block_valid :
    (s : Store) (port b : ℤ) (bytes : List ℕ)
    → IsValid s
    → length bytes ≡ block_size
    → valid_block port b ≡ true
    → (q c : ℕ)
    → block (write_block s port b bytes).0 q c
      ≡ (if index port == q && index b == c then bytes else block s q c)
unfolding block
block-write_block_valid s port b bytes v l h q c = rw (image-write_block s port b bytes q h v l) (
    ground (
      arith,
      slice-memcpy_block (image s q) bytes (index b) c l
          (omega (arith, valid_block-lt port b h, length-image s q v)),
    ))

-- A write of 32 bytes to a port and a block in range succeeds, changes that block to the bytes
-- written, and leaves every other block of every port as it is; any other write is refused and
-- changes nothing at all.
pub block-write_block :
    (s : Store) (port b : ℤ) (bytes : List ℕ)
    → IsValid s
    → length bytes ≡ block_size
    → ((write_block s port b bytes).1 ≡ valid_block port b)
      × (valid_block port b ≡ true
          → (q c : ℕ)
          → block (write_block s port b bytes).0 q c
            ≡ (if index port == q && index b == c then bytes else block s q c))
      × (valid_block port b ≡ false → (write_block s port b bytes).0 ≡ s)
block-write_block s port b bytes v l = (
  unfold write_block in ground arith,
  λ h q c. block-write_block_valid s port b bytes v l h q c,
  unfold write_block in λ h. ground arith,
)

-- What any port holds is the same after a flush.
image-flush_port : (s : Store) (p q : ℕ) → image (flush_port s p) q ≡ image s q
unfolding image flush_port
image-flush_port s p q = elim (ℕ_discrete p q) [
  | yes e ↦ rw (← e) (ground arith)
  | no h ↦ ground (arith, disk_image-write_ne s.dir s.disk p q (s.pak p) h)
]

image-flush_from : (s : Store) (n p q : ℕ) → image (flush_from s n p) q ≡ image s q
unfolding flush_from
image-flush_from s zero p q = refl
image-flush_from s (suc n) p q =
    image-flush_from (flush_port s p) n (p + 1) q ∙ image-flush_port s p q

pub image-flush : (s : Store) (q : ℕ) → image (flush s) q ≡ image s q
unfolding flush
image-flush s q = ground (arith, image-flush_from s 4 0 q)

pub length-block :
    (s : Store) (q c : ℕ) → IsValid s → c < block_count → length (block s q c) ≡ block_size
unfolding block
length-block s q c v h =
    length-slice (c * block_size) block_size (image s q) (omega (arith, length-image s q v))
