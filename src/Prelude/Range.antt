-- ===== src/Prelude/Range.antt =====
-- Tables checked by evaluation: a decidable predicate on the first numbers, as one Boolean.
use Prim.Native.Nat.{ℕ, zero, suc, ◌<◌}
use mathlib.Core.Path.{◌≡◌}
use mathlib.Core.Bool.{Bool, true, ◌&&◌}
use native.Mathlib.Omega.{arith}

module _ (test : ℕ → Bool) where
  unfoldable pub passes : ℕ → Bool
  passes zero = true
  passes (suc bound) = passes bound && test bound

  -- An entry of a table that passes.
  pub passes-entry : (bound : ℕ) → passes bound ≡ true → (i : ℕ) → i < bound → test i ≡ true
  unfolding passes
  passes-entry zero whole i below = absurd (omega arith)
  passes-entry (suc bound) whole i below =
      let earlier : passes bound ≡ true = ground arith in
      ground (arith, passes-entry bound earlier i)
