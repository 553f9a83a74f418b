-- ===== src/Libultra/Spin.antt =====
-- src/spin_yield.cpp, `yield_timeout_ms`, from HH_YIELD_MS as `strtol` reads it.
use hybrid_heaven_recomp.Prelude.{ℕ, ℤ, pos, negsuc, Option, none, some, ltb, if◌then◌else◌}

unfoldable pub yield_timeout_ms : Option ℤ → ℕ
yield_timeout_ms none = 1
yield_timeout_ms (some (pos ms)) = if ltb 100 ms then 100 else ms
yield_timeout_ms (some (negsuc ms)) = 0
