-- ===== src/Libultra/Exact.antt =====
-- What the conversions return, over the whole range of their argument.
use hybrid_heaven_recomp.Prelude.{
  ℕ, ◌+◌, ◌-◌, ◌*◌, ◌/◌, ◌%◌, ◌^◌, ◌≤◌, ◌<◌, ◌≡◌, refl, ap, ◌∙◌, inl, inr, pos, negsuc, none, some,
  leb, ltb, if◌then◌else◌, arith, Bool-cases, le→leb, leb→le, le→ltb_false, lt→ltb,
}
use hybrid_heaven_recomp.Libultra.Convert.{
  Double, nan, above, below, number, Registers, sign_extend, return_64, to_s64, minus_2_63,
  to_unsigned, uint64_max, with_top_bit, not_negative, converted, to_u64, ll_of,
}

-- The 64-bit result by cases of the truncated value: itself where it fits 64 bits unsigned, and the
-- greatest otherwise.
pub saturated : Double → ℕ
saturated nan = uint64_max
saturated above = uint64_max
saturated below = uint64_max
saturated (number (pos n)) = if ltb n (2 ^ 64) then n else uint64_max
saturated (number (negsuc n)) = uint64_max

above_2_63 :
    (n : ℕ)
    → 2 ^ 63 ≤ n
    → with_top_bit (to_s64 (minus_2_63 (number (pos n))))
      ≡ (if ltb n (2 ^ 64) then n else uint64_max)
unfolding to_s64 minus_2_63 with_top_bit to_unsigned
above_2_63 n h = elim (Bool-cases (leb (2 ^ 63) (n - 2 ^ 63))) [
  | inl e ↦
      let large : 2 ^ 64 ≤ n = ground arith in
      rw (le→leb (2 ^ 63) n h, e, le→ltb_false n (2 ^ 64) large) refl
  | inr e ↦
      let small : n < 2 ^ 64 = ground arith in
      rw (le→leb (2 ^ 63) n h, e, lt→ltb n (2 ^ 64) small) (omega arith)
]

to_u64-pos : (n : ℕ) → to_u64 (number (pos n)) ≡ (if ltb n (2 ^ 64) then n else uint64_max)
unfolding to_u64
to_u64-pos n = elim (Bool-cases (leb (2 ^ 63) n)) [
  | inl e ↦
      let none_at : to_s64 (number (pos n)) ≡ none = unfold to_s64 in rw e refl in
      ap (converted (number (pos n))) none_at
      ∙ (unfold converted in above_2_63 n (leb→le (2 ^ 63) n e))
  | inr e ↦
      let some_at : to_s64 (number (pos n)) ≡ some (pos n) = unfold to_s64 in rw e refl in
      let small : n < 2 ^ 64 = ground arith in
      ap (converted (number (pos n))) some_at
      ∙ (rw (lt→ltb n (2 ^ 64) small) (unfold converted not_negative in refl))
]

below_2_63 : (n : ℕ) → with_top_bit (to_s64 (minus_2_63 (number (negsuc n)))) ≡ uint64_max
unfolding to_s64 minus_2_63 with_top_bit
below_2_63 n =
    let far : 2 ^ 63 ≤ n + 2 ^ 63 = omega arith in rw (le→leb (2 ^ 63) (n + 2 ^ 63) far) refl

to_u64-negsuc : (n : ℕ) → to_u64 (number (negsuc n)) ≡ uint64_max
unfolding to_u64
to_u64-negsuc n = elim (Bool-cases (leb (2 ^ 63) n)) [
  | inl e ↦
      let none_at : to_s64 (number (negsuc n)) ≡ none = unfold to_s64 in rw e refl in
      ap (converted (number (negsuc n))) none_at ∙ (unfold converted in below_2_63 n)
  | inr e ↦
      let some_at : to_s64 (number (negsuc n)) ≡ some (negsuc n) = unfold to_s64 in rw e refl in
      ap (converted (number (negsuc n))) some_at ∙ (unfold converted not_negative in refl)
]

-- `to_u64`, which converts in two steps around 2^63, is in one: every value that truncates to an
-- integer from 0 up to 2^64 converts to it, and every other, not a number and the infinities
-- included, to 2^64 - 1.
pub to_u64-saturated : (value : Double) → to_u64 value ≡ saturated value
unfolding saturated
to_u64-saturated nan = unfold to_u64 converted to_s64 minus_2_63 with_top_bit in refl
to_u64-saturated above = unfold to_u64 converted to_s64 minus_2_63 with_top_bit in refl
to_u64-saturated below = unfold to_u64 converted to_s64 minus_2_63 with_top_bit in refl
to_u64-saturated (number (pos n)) = to_u64-pos n
to_u64-saturated (number (negsuc n)) = to_u64-negsuc n

sign_extend_lem :
    (w : ℕ)
    → w < 2 ^ 32
    → (sign_extend w % 2 ^ 32 ≡ w) × (sign_extend w * 2 ^ 32 % 2 ^ 64 ≡ w * 2 ^ 32)
unfolding sign_extend
sign_extend_lem w h = elim (Bool-cases (ltb w (2 ^ 31))) [
  | inl e ↦ rw e (omega arith, omega arith)
  | inr e ↦ rw e (omega arith, omega arith)
]

-- The two registers that a 64-bit result is returned in, each sign-extended, read as the argument of
-- `__ll_to_d_recomp` give the result back.
pub ll_of-return_64 :
    (ctx : Registers) (value : ℕ)
    → value < 2 ^ 64
    → ll_of (return_64 ctx value).r2 (return_64 ctx value).r3 ≡ value
unfolding return_64 ll_of
ll_of-return_64 ctx value h = omega (
  arith,
  (sign_extend_lem (value / 2 ^ 32) (omega arith)).1,
  (sign_extend_lem (value % 2 ^ 32) (omega arith)).0,
)
