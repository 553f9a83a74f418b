-- ===== src/Prelude/Real.antt =====
-- Floating point, as a parameter.
use mathlib.Core.Bool.{Bool}
use hybrid_heaven_recomp.Prelude.Int.{ℤ}

-- The double arithmetic: `int` is the conversion, `float` the rounding to a float, and `pi` the literal
-- 3.14159265358979.
pub record Floats (F : Type 0) : Type 0 where
  pub int : ℤ → F
  pub add : F → F → F
  pub sub : F → F → F
  pub mul : F → F → F
  pub div : F → F → F
  pub neg : F → F
  pub lt : F → F → Bool
  pub le : F → F → Bool
  pub eq : F → F → Bool
  pub atan : F → F
  pub float : F → F
  pub pi : F
