-- ===== src/Prelude/Int.antt =====
-- C's `int`, as the integer that it stands for, over the native numbers.
use Prim.Native.Nat.{ℕ}
use mathlib.Core.Bool.{Bool, false}
use hybrid_heaven_recomp.Prelude.Tests.{ltb}

-- `negsuc n` is -(n + 1).
pub data ℤ : Type 0 where
  pos : ℕ → ℤ
  negsuc : ℕ → ℤ

-- `0 <= i && i < n`
abbrev pub in_range : ℤ → ℕ → Bool
in_range (pos i) n = ltb i n
in_range (negsuc i) n = false

-- The index that an integer in range stands for.
abbrev pub index : ℤ → ℕ
index (pos i) = i
index (negsuc i) = 0
