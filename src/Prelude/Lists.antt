-- ===== src/Prelude/Lists.antt =====
-- Lists measured and indexed by native numbers, and byte buffers: `slice` reads a range and
-- `memcpy` writes one.
use Prim.Native.Nat.{ℕ, zero, suc, ◌+◌, ◌-◌, ◌≤◌, min}
use mathlib.Core.Path.{◌≡◌, refl, ap}
use mathlib.Core.List.{List, [], ◌∷◌, ◌++◌}
use mathlib.Core.Bool.{Bool, true, false, ◌&&◌}
use native.Mathlib.Omega.{arith}
use hybrid_heaven_recomp.Prelude.Tests.{◌==◌}

module _ {ℓ} {A : Type ℓ} where
  abbrev pub length : List A → ℕ
  length [] = 0
  length (x ∷ xs) = suc (length xs)

  abbrev pub get_or : List A → ℕ → A → A
  get_or [] i d = d
  get_or (x ∷ xs) zero d = x
  get_or (x ∷ xs) (suc i) d = get_or xs i d

  abbrev pub take : ℕ → List A → List A
  take zero xs = []
  take (suc n) [] = []
  take (suc n) (x ∷ xs) = x ∷ take n xs

  abbrev pub drop : ℕ → List A → List A
  drop zero xs = xs
  drop (suc n) [] = []
  drop (suc n) (x ∷ xs) = drop n xs

  abbrev pub replicate : ℕ → A → List A
  replicate zero a = []
  replicate (suc n) a = a ∷ replicate n a

  -- `slice off n xs`: the `n` items from index `off`, fewer at the end of the list.
  unfoldable pub slice : ℕ → ℕ → List A → List A
  slice off n xs = take n (drop off xs)

  unfoldable pub overwrite : List A → List A → List A
  overwrite xs [] = xs
  overwrite [] (s ∷ ss) = []
  overwrite (x ∷ xs) (s ∷ ss) = s ∷ overwrite xs ss

  -- The buffer `xs` with the items of `src` written from index `off` on, which the callers keep
  -- within the buffer.
  unfoldable pub memcpy : List A → ℕ → List A → List A
  unfolding overwrite
  memcpy xs zero src = overwrite xs src
  memcpy [] (suc off) src = []
  memcpy (x ∷ xs) (suc off) src = x ∷ memcpy xs off src

module _ {ℓ} {A : Type ℓ} where
  pub append_nil : (xs : List A) → xs ++ [] ≡ xs
  append_nil [] = refl
  append_nil (x ∷ xs) = ap (λ ys. x ∷ ys) (append_nil xs)

  pub append_assoc : (xs ys zs : List A) → (xs ++ ys) ++ zs ≡ xs ++ (ys ++ zs)
  append_assoc [] ys zs = refl
  append_assoc (x ∷ xs) ys zs = ap (λ us. x ∷ us) (append_assoc xs ys zs)

  pub append_snoc : (xs : List A) (y : A) (zs : List A) → (xs ++ y ∷ []) ++ zs ≡ xs ++ y ∷ zs
  append_snoc [] y zs = refl
  append_snoc (x ∷ xs) y zs = ap (λ ys. x ∷ ys) (append_snoc xs y zs)

  pub length-append : (xs ys : List A) → length (xs ++ ys) ≡ length xs + length ys
  length-append [] ys = omega arith
  length-append (x ∷ xs) ys = omega (arith, length-append xs ys)

  pub length-replicate : (n : ℕ) (a : A) → length (replicate n a) ≡ n
  length-replicate zero a = refl
  length-replicate (suc n) a = ap suc (length-replicate n a)

  pub length-take : (n : ℕ) (xs : List A) → length (take n xs) ≡ min n (length xs)
  length-take zero xs = omega arith
  length-take (suc n) [] = omega arith
  length-take (suc n) (x ∷ xs) = omega (arith, length-take n xs)

  pub length-drop : (n : ℕ) (xs : List A) → length (drop n xs) ≡ length xs - n
  length-drop zero xs = omega arith
  length-drop (suc n) [] = omega arith
  length-drop (suc n) (x ∷ xs) = omega (arith, length-drop n xs)

  pub take_all : (n : ℕ) (xs : List A) → length xs ≤ n → take n xs ≡ xs
  take_all zero [] h = refl
  take_all zero (x ∷ xs) h = absurd (omega arith)
  take_all (suc n) [] h = refl
  take_all (suc n) (x ∷ xs) h = ap (λ ys. x ∷ ys) (take_all n xs (omega arith))

  length-overwrite : (xs ss : List A) → length (overwrite xs ss) ≡ length xs
  unfolding overwrite
  length-overwrite xs [] = refl
  length-overwrite [] (s ∷ ss) = refl
  length-overwrite (x ∷ xs) (s ∷ ss) = ap suc (length-overwrite xs ss)

  pub length-memcpy :
      (xs : List A) (off : ℕ) (src : List A) → length (memcpy xs off src) ≡ length xs
  unfolding memcpy
  length-memcpy xs zero src = length-overwrite xs src
  length-memcpy [] (suc off) src = refl
  length-memcpy (x ∷ xs) (suc off) src = ap suc (length-memcpy xs off src)

  pub length-slice : (off n : ℕ) (xs : List A) → off + n ≤ length xs → length (slice off n xs) ≡ n
  unfolding slice
  length-slice off n xs h = omega (arith, length-take n (drop off xs), length-drop off xs)

  take-overwrite :
      (xs ss : List A) → length ss ≤ length xs → take (length ss) (overwrite xs ss) ≡ ss
  unfolding overwrite
  take-overwrite xs [] h = refl
  take-overwrite [] (s ∷ ss) h = absurd (omega arith)
  take-overwrite (x ∷ xs) (s ∷ ss) h = ap (λ ys. s ∷ ys) (take-overwrite xs ss (omega arith))

  drop-overwrite : (xs ss : List A) (n : ℕ) → length ss ≤ n → drop n (overwrite xs ss) ≡ drop n xs
  unfolding overwrite
  drop-overwrite xs [] n h = refl
  drop-overwrite [] (s ∷ ss) n h = refl
  drop-overwrite (x ∷ xs) (s ∷ ss) zero h = absurd (omega arith)
  drop-overwrite (x ∷ xs) (s ∷ ss) (suc n) h = drop-overwrite xs ss n (omega arith)

  -- What was written is read back.
  pub slice-memcpy_self :
      (xs : List A) (off : ℕ) (src : List A)
      → off + length src ≤ length xs
      → slice off (length src) (memcpy xs off src) ≡ src
  unfolding slice memcpy
  slice-memcpy_self xs zero src h = take-overwrite xs src (omega arith)
  slice-memcpy_self [] (suc off) src h = absurd (omega arith)
  slice-memcpy_self (x ∷ xs) (suc off) src h = slice-memcpy_self xs off src (omega arith)

  -- A range after the one written is unchanged.
  pub slice-memcpy_after :
      (xs : List A) (off : ℕ) (src : List A) (at n : ℕ)
      → off + length src ≤ at
      → slice at n (memcpy xs off src) ≡ slice at n xs
  unfolding slice memcpy
  slice-memcpy_after xs zero src at n h = ap (take n) (drop-overwrite xs src at (omega arith))
  slice-memcpy_after [] (suc off) src at n h = refl
  slice-memcpy_after (x ∷ xs) (suc off) src zero n h = absurd (omega arith)
  slice-memcpy_after (x ∷ xs) (suc off) src (suc at) n h =
      slice-memcpy_after xs off src at n (omega arith)

  take-memcpy :
      (xs : List A) (off : ℕ) (src : List A) (n : ℕ)
      → n ≤ off
      → take n (memcpy xs off src) ≡ take n xs
  unfolding memcpy
  take-memcpy xs zero src zero h = refl
  take-memcpy xs zero src (suc n) h = absurd (omega arith)
  take-memcpy [] (suc off) src n h = refl
  take-memcpy (x ∷ xs) (suc off) src zero h = refl
  take-memcpy (x ∷ xs) (suc off) src (suc n) h =
      ap (λ ys. x ∷ ys) (take-memcpy xs off src n (omega arith))

  -- A range before the one written is unchanged.
  pub slice-memcpy_before :
      (xs : List A) (off : ℕ) (src : List A) (at n : ℕ)
      → at + n ≤ off
      → slice at n (memcpy xs off src) ≡ slice at n xs
  unfolding slice memcpy
  slice-memcpy_before xs zero src zero n h = take-memcpy xs zero src n (omega arith)
  slice-memcpy_before xs zero src (suc at) n h = absurd (omega arith)
  slice-memcpy_before [] (suc off) src at n h = refl
  slice-memcpy_before (x ∷ xs) (suc off) src zero n h =
      take-memcpy (x ∷ xs) (suc off) src n (omega arith)
  slice-memcpy_before (x ∷ xs) (suc off) src (suc at) n h =
      slice-memcpy_before xs off src at n (omega arith)

  overwrite-take : (n : ℕ) (xs : List A) → overwrite xs (take n xs) ≡ xs
  unfolding overwrite
  overwrite-take zero [] = refl
  overwrite-take zero (x ∷ xs) = refl
  overwrite-take (suc n) [] = refl
  overwrite-take (suc n) (x ∷ xs) = ap (λ ys. x ∷ ys) (overwrite-take n xs)

  pub overwrite_all : (xs ss : List A) → length xs ≡ length ss → overwrite xs ss ≡ ss
  unfolding overwrite
  overwrite_all [] [] h = refl
  overwrite_all (x ∷ xs) [] h = absurd (omega arith)
  overwrite_all [] (s ∷ ss) h = absurd (omega arith)
  overwrite_all (x ∷ xs) (s ∷ ss) h = ap (λ ys. s ∷ ys) (overwrite_all xs ss (omega arith))

  -- Writing what is there already changes nothing.
  pub memcpy-slice : (xs : List A) (off n : ℕ) → memcpy xs off (slice off n xs) ≡ xs
  unfolding slice memcpy
  memcpy-slice xs zero n = overwrite-take n xs
  memcpy-slice [] (suc off) n = refl
  memcpy-slice (x ∷ xs) (suc off) n = ap (λ ys. x ∷ ys) (memcpy-slice xs off n)

-- `memcmp(a, b, n) == 0` of two buffers of one length.
unfoldable pub bytes_eq : List ℕ → List ℕ → Bool
bytes_eq [] [] = true
bytes_eq [] (y ∷ ys) = false
bytes_eq (x ∷ xs) [] = false
bytes_eq (x ∷ xs) (y ∷ ys) = x == y && bytes_eq xs ys

pub bytes_eq→eq : (xs ys : List ℕ) → bytes_eq xs ys ≡ true → xs ≡ ys
unfolding bytes_eq
bytes_eq→eq [] [] h = refl
bytes_eq→eq [] (y ∷ ys) h = ground arith
bytes_eq→eq (x ∷ xs) [] h = ground arith
bytes_eq→eq (x ∷ xs) (y ∷ ys) h = ground (arith, bytes_eq→eq xs ys)

pub bytes_eq_refl : (xs : List ℕ) → bytes_eq xs xs ≡ true
unfolding bytes_eq
bytes_eq_refl [] = refl
bytes_eq_refl (x ∷ xs) = ground (arith, bytes_eq_refl xs)
