-- ===== src/Wire/Frame/Bytes.antt =====
-- The loops over the data bytes of a frame, as RDRAM shows them.
use hybrid_heaven_recomp.Prelude.{
  ℕ, zero, suc, ◌+◌, ◌%◌, ◌≤◌, ◌<◌, ◌≡◌, ◌≢◌, refl, ◌⊎◌, inl, inr, List, [], ◌∷◌, get_or, length,
  ap, ◌∙◌, arith, ne→==_false, ==_refl,
}
use hybrid_heaven_recomp.Wire.Memory.{Memory}
use hybrid_heaven_recomp.Wire.Frame.{load_bytes, store_bytes}

module _ (memory : Memory) where
  open memory use {Mem, load, store, load-lt, load-store}

  pub load-store_ne : (m : Mem) (a v b : ℕ) → a ≢ b → load (store m a v) b ≡ load m b
  load-store_ne m a v b h = ground (arith, load-store m a v b, ne→==_false a b h)

  pub load-store_self : (m : Mem) (a v : ℕ) → load (store m a v) a ≡ v % 256
  load-store_self m a v = ground (arith, load-store m a v a, ==_refl a)

  pub length-load_bytes : (m : Mem) (at n : ℕ) → length (load_bytes memory m at n) ≡ n
  unfolding load_bytes
  length-load_bytes m at zero = refl
  length-load_bytes m at (suc n) = ap suc (length-load_bytes m (at + 1) n)

  pub get_or-load_bytes :
      (m : Mem) (at n i : ℕ) → i < n → get_or (load_bytes memory m at n) i 0 ≡ load m (at + i)
  unfolding load_bytes
  get_or-load_bytes m at zero i h = absurd (omega arith)
  get_or-load_bytes m at (suc n) zero h = ap (load m) (omega arith)
  get_or-load_bytes m at (suc n) (suc i) h =
      get_or-load_bytes m (at + 1) n i (omega arith) ∙ ap (load m) (omega arith)

  pub load-store_bytes_out :
      (m : Mem) (at : ℕ) (bs : List ℕ) (a : ℕ)
      → (a < at) ⊎ (at + length bs ≤ a)
      → load (store_bytes memory m at bs) a ≡ load m a
  unfolding store_bytes
  load-store_bytes_out m at [] a h = refl
  load-store_bytes_out m at (b ∷ bs) a (inl h) =
      load-store_bytes_out (store m at b) (at + 1) bs a (inl (omega arith))
      ∙ load-store_ne m at b a (omega arith)
  load-store_bytes_out m at (b ∷ bs) a (inr h) =
      load-store_bytes_out (store m at b) (at + 1) bs a (inr (omega arith))
      ∙ load-store_ne m at b a (omega arith)

  pub load-store_bytes :
      (m : Mem) (at : ℕ) (bs : List ℕ) (i : ℕ)
      → i < length bs
      → load (store_bytes memory m at bs) (at + i) ≡ get_or bs i 0 % 256
  unfolding store_bytes
  load-store_bytes m at [] i h = absurd (omega arith)
  load-store_bytes m at (b ∷ bs) zero h =
      load-store_bytes_out (store m at b) (at + 1) bs (at + 0) (inl (omega arith))
      ∙ (ap (load (store m at b)) (omega arith) ∙ load-store_self m at b)
  load-store_bytes m at (b ∷ bs) (suc i) h =
      ap (load (store_bytes memory (store m at b) (at + 1) bs)) (omega arith)
      ∙ load-store_bytes (store m at b) (at + 1) bs i (omega arith)
