-- ===== src/Audio/Sample/Volume.antt =====
-- The swap undoes itself, and no volume leaves the range of a sample.
use hybrid_heaven_recomp.Prelude.{
  ℕ, suc, ◌^◌, ◌≤◌, ◌<◌, ◌≡◌, refl, ap, ℤ, pos, negsuc, List, [], ◌∷◌, ◌==◌, ltb, length, get_or,
  Bool-cases, inl, inr,
}
use hybrid_heaven_recomp.Audio.Sample.{unswap, scale, map_samples, at_volume}

-- Swapping twice gives the buffer back, so no sample is lost or doubled, also for an odd count.
pub unswap-unswap : (samples : List ℤ) → unswap (unswap samples) ≡ samples
unfolding unswap
unswap-unswap [] = refl
unswap-unswap (a ∷ []) = refl
unswap-unswap (a ∷ b ∷ rest) = ap (λ xs. a ∷ b ∷ xs) (unswap-unswap rest)

pub length-unswap : (samples : List ℤ) → length (unswap samples) ≡ length samples
unfolding unswap
length-unswap [] = refl
length-unswap (a ∷ []) = refl
length-unswap (a ∷ b ∷ rest) = ap (λ n. suc (suc n)) (length-unswap rest)

unfoldable pub magnitude : ℤ → ℕ
magnitude (pos n) = n
magnitude (negsuc n) = suc n

unfoldable pub InRange : ℤ → Type 0
InRange (pos n) = n < 2 ^ 15
InRange (negsuc n) = n < 2 ^ 15

-- Every sample of a buffer is one of 16 bits.
unfoldable pub AllInRange : List ℤ → Type 0
AllInRange [] = Unit
AllInRange (s ∷ ss) = InRange s × AllInRange ss

abbrev pub Quieter : List ℤ → List ℤ → Type 0
Quieter out samples =
    (i : ℕ) → magnitude (get_or out i (pos 0)) ≤ magnitude (get_or samples i (pos 0))

length-map_samples : (f : ℤ → ℤ) (xs : List ℤ) → length (map_samples f xs) ≡ length xs
length-map_samples f [] = refl
length-map_samples f (x ∷ xs) = ap suc (length-map_samples f xs)

pub length-at_volume : (v : ℕ) (xs : List ℤ) → length (at_volume v xs) ≡ length xs
unfolding at_volume
length-at_volume v xs = elim (Bool-cases (v == 0)) [
  | inl e ↦ rw e (length-map_samples (λ s. pos 0) xs)
  | inr e ↦ elim (Bool-cases (ltb v 100)) [
    | inl e' ↦ rw (e, e') (length-map_samples (scale v) xs)
    | inr e' ↦ rw (e, e') refl
  ]
]
