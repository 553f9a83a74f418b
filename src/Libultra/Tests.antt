-- ===== src/Libultra/Tests.antt =====
-- Conversions at the edges of their ranges.
use hybrid_heaven_recomp.Prelude.{◌≡◌, refl, pos, negsuc, some}
use hybrid_heaven_recomp.Libultra.Convert.{
  nan, number, Registers, sign_extend, return_64, to_s64, minus_2_63, to_unsigned, with_top_bit,
  converted, to_u64, d_to_ll, d_to_ull,
}
use hybrid_heaven_recomp.Libultra.Spin.{yield_timeout_ms}

abbrev cleared : Registers
cleared = record { r2 = 0; r3 = 0; r4 = 0; r5 = 0 }

minus_one : (d_to_ll cleared (number (negsuc 0))).r2 ≡ 0xFFFF_FFFF_FFFF_FFFF
unfolding d_to_ll to_s64 to_unsigned return_64 sign_extend
minus_one = refl

not_number : (d_to_ull cleared nan).r3 ≡ 0xFFFF_FFFF_FFFF_FFFF
unfolding d_to_ull to_u64 converted to_s64 minus_2_63 with_top_bit return_64 sign_extend
not_number = refl

long_wait : yield_timeout_ms (some (pos 5000)) ≡ 100
unfolding yield_timeout_ms
long_wait = refl
