-- ===== src/Libultra/Convert.antt =====
-- src/libultra_stubs.cpp. A double is seen only through its comparisons with powers of two and its
-- truncation, so it is `nan`, an infinity, or the integer that it truncates to. The subtraction of
-- 2^63 is exact on the doubles from 2^63 up to 2^64, and leaves the others out of range.
use hybrid_heaven_recomp.Prelude.{
  ℕ, ◌+◌, ◌-◌, ◌*◌, ◌/◌, ◌%◌, ◌^◌, ℤ, pos, negsuc, Option, none, some, leb, ltb, if◌then◌else◌,
}

pub data Double : Type 0 where
  nan above below : Double
  number : ℤ → Double

-- The registers that the routines read and write, of 64 bits each.
pub record Registers : Type 0 where
  pub r2 : ℕ
  pub r3 : ℕ
  pub r4 : ℕ
  pub r5 : ℕ

-- A 32-bit value as the recompiler keeps it, `static_cast<int32_t>` widened to a register.
unfoldable pub sign_extend : ℕ → ℕ
sign_extend w = if ltb w (2 ^ 31) then w else w + (2 ^ 64 - 2 ^ 32)

unfoldable pub return_64 : Registers → ℕ → Registers
unfolding sign_extend
return_64 ctx value = record ctx {
  r2 = sign_extend (value / 2 ^ 32);
  r3 = sign_extend (value % 2 ^ 32);
}

-- `none` is the result `false`: not a number, or outside the range of an `int64_t`.
unfoldable pub to_s64 : Double → Option ℤ
to_s64 nan = none
to_s64 above = none
to_s64 below = none
to_s64 (number (pos n)) = if leb (2 ^ 63) n then none else some (pos n)
to_s64 (number (negsuc n)) = if leb (2 ^ 63) n then none else some (negsuc n)

-- `value - 9223372036854775808.0`
unfoldable pub minus_2_63 : Double → Double
minus_2_63 nan = nan
minus_2_63 above = above
minus_2_63 below = below
minus_2_63 (number (pos n)) =
    if leb (2 ^ 63) n then number (pos (n - 2 ^ 63)) else number (negsuc (2 ^ 63 - n - 1))
minus_2_63 (number (negsuc n)) = number (negsuc (n + 2 ^ 63))

-- `static_cast<uint64_t>` of an `int64_t`
unfoldable pub to_unsigned : ℤ → ℕ
to_unsigned (pos n) = n
to_unsigned (negsuc n) = 2 ^ 64 - (n + 1)

abbrev pub uint64_max : ℕ
uint64_max = 2 ^ 64 - 1

-- The mask 0x8000000000000000 sets the top bit.
unfoldable pub with_top_bit : Option ℤ → ℕ
unfolding to_unsigned
with_top_bit none = uint64_max
with_top_bit (some s) = to_unsigned s % 2 ^ 63 + 2 ^ 63

unfoldable pub not_negative : ℤ → ℕ
not_negative (pos n) = n
not_negative (negsuc n) = uint64_max

-- The second conversion, or the test for a negative, after the first.
unfoldable pub converted : Double → Option ℤ → ℕ
converted value none = with_top_bit (to_s64 (minus_2_63 value))
converted value (some s) = not_negative s

unfoldable pub to_u64 : Double → ℕ
to_u64 value = converted value (to_s64 value)

-- `__d_to_ll_recomp` and `__d_to_ull_recomp`, of `f12`; `__f_to_ull_recomp` widens its float first.
unfoldable pub d_to_ll : Registers → Double → Registers
unfolding to_unsigned
d_to_ll ctx f12 = return_64 ctx (elim (to_s64 f12) [ none ↦ 2 ^ 63 | some s ↦ to_unsigned s ])

unfoldable pub d_to_ull : Registers → Double → Registers
d_to_ull ctx f12 = return_64 ctx (to_u64 f12)

-- The integer that `__ll_to_d_recomp` makes a double of, from two registers.
unfoldable pub ll_of : ℕ → ℕ → ℕ
ll_of r4 r5 = r4 * 2 ^ 32 % 2 ^ 64 + r5 % 2 ^ 32
