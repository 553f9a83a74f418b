-- ===== src/Platform/Fits.antt =====
-- The window that opens is the largest multiple of the console's picture that fits.
use hybrid_heaven_recomp.Prelude.{
  ℕ, zero, suc, ◌*◌, ◌≤◌, ◌<◌, ◌≡◌, ◌⊎◌, inl, inr, refl, true, false, Option, none, some, ltb,
  arith, Bool-cases, ltb→lt, ltb→le,
}
use hybrid_heaven_recomp.Platform.Window.{too_large, scale_down, windowed, window_size}

-- A scale of the picture in a screen of this size.
abbrev pub Fits : ℕ → ℕ → ℕ → Type 0
Fits w h scale = (320 * scale ≤ w) × (240 * scale ≤ h)

abbrev pub Exceeds : ℕ → ℕ → ℕ → Type 0
Exceeds w h scale = (w < 320 * scale) ⊎ (h < 240 * scale)

too_large-Exceeds : (w h scale : ℕ) → too_large w h scale ≡ true → Exceeds w h scale
unfolding too_large
too_large-Exceeds w h scale e = elim (Bool-cases (ltb w (320 * scale))) [
  | inl a ↦ inl (ltb→lt w (320 * scale) a)
  | inr a ↦ inr (ltb→lt h (240 * scale) (ground (arith, a, e)))
]

pub record IsLargest (w h most scale : ℕ) : Type 0 where
  pub at_least_one : 1 ≤ scale
  pub at_most : scale ≤ most
  pub fits : (scale ≡ 1) ⊎ Fits w h scale
  pub largest : (m : ℕ) → scale < m → m ≤ most → Exceeds w h m

not_too_large : (w h scale : ℕ) → too_large w h scale ≡ false → Fits w h scale
unfolding too_large
not_too_large w h scale e = elim (Bool-cases (ltb w (320 * scale))) [
  | inl a ↦ absurd (ground (arith, a, e))
  | inr a ↦ (ltb→le w (320 * scale) a, ltb→le h (240 * scale) (ground (arith, a, e)))
]

scale_down-IsLargest : (w h most : ℕ) → 1 ≤ most → IsLargest w h most (scale_down w h most)
unfolding scale_down
scale_down-IsLargest w h zero l = absurd (omega arith)
scale_down-IsLargest w h (suc zero) l = record {
  at_least_one = omega arith;
  at_most = omega arith;
  fits = inl refl;
  largest = λ m a b. absurd (omega arith);
}
scale_down-IsLargest w h (suc (suc n)) l = elim (Bool-cases (too_large w h (suc (suc n)))) [
  | inl e ↦
      let v = scale_down-IsLargest w h (suc n) (omega arith) in
      rw e (record {
        at_least_one = v.at_least_one;
        at_most = omega (arith, v.at_most);
        fits = v.fits;
        largest = λ m a b. elim (Bool-cases (ltb m (suc (suc n)))) [
          | inl below ↦ v.largest m a (ground (arith, below))
          | inr whole ↦
              let same : suc (suc n) ≡ m = ground (arith, whole) in
              rw (← same) (too_large-Exceeds w h (suc (suc n)) e)
        ];
      })
  | inr e ↦ rw e (record {
    at_least_one = omega arith;
    at_most = omega arith;
    fits = inr (not_too_large w h (suc (suc n)) e);
    largest = λ m a b. absurd (omega arith);
  })
]

-- A window that is neither forced to a size nor fullscreen, on a display whose usable size is known, is the
-- console's 320 by 240 at a whole scale: the largest up to 4 that fits both ways, or 1 where none does.
pub window_size-IsLargest :
    (display : Option (ℕ × ℕ)) (w h : ℕ)
    → (scale : ℕ) × IsLargest w h 4 scale
      × (window_size none false display (some (w, h))
          ≡ record { width = 320 * scale; height = 240 * scale; fullscreen = false })
unfolding window_size windowed
window_size-IsLargest display w h =
    (scale_down w h 4, scale_down-IsLargest w h 4 (omega arith), refl)
