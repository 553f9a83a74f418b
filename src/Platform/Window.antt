-- ===== src/Platform/Window.antt =====
-- The size that `create_window` opens the window at. HH_WINDOW_SIZE is seen as the two numbers that
-- `sscanf` reads, where it reads both.
use hybrid_heaven_recomp.Prelude.{
  ℕ, zero, suc, ◌*◌, ℤ, pos, negsuc, Bool, true, false, ◌||◌, Option, none, some, ltb,
  if◌then◌else◌,
}

unfoldable pub forced_size : Option (ℤ × ℤ) → Option (ℕ × ℕ)
forced_size none = none
forced_size (some (negsuc w, h)) = none
forced_size (some (pos w, negsuc h)) = none
forced_size (some (pos w, pos h)) = if ltb w 160 || ltb h 120 then none else some (w, h)

-- `scale > 1 && (...)` as the loop's test; it starts at 4.
unfoldable pub too_large : ℕ → ℕ → ℕ → Bool
too_large w h scale = ltb w (320 * scale) || ltb h (240 * scale)

unfoldable pub scale_down : ℕ → ℕ → ℕ → ℕ
scale_down w h zero = zero
scale_down w h (suc zero) = suc zero
scale_down w h (suc (suc n)) =
    let smaller = scale_down w h (suc n) in
    if too_large w h (suc (suc n)) then smaller else suc (suc n)

pub record Opening : Type 0 where
  pub width : ℕ
  pub height : ℕ
  pub fullscreen : Bool

-- The windowed case: the usable bounds, where SDL knows them.
unfoldable pub windowed : Option (ℕ × ℕ) → Opening
windowed none = record { width = 320 * 4; height = 240 * 4; fullscreen = false }
windowed (some (w, h)) =
    let scale = scale_down w h 4 in
    record { width = 320 * scale; height = 240 * scale; fullscreen = false }

unfoldable pub at_display : Option (ℕ × ℕ) → Option (ℕ × ℕ) → Opening
at_display none usable = windowed usable
at_display (some (w, h)) usable = record { width = w; height = h; fullscreen = true }

-- The setting, and the display's bounds and usable bounds.
unfoldable pub window_size : Option (ℕ × ℕ) → Bool → Option (ℕ × ℕ) → Option (ℕ × ℕ) → Opening
window_size (some (w, h)) fullscreen display usable = record {
  width = w;
  height = h;
  fullscreen = false;
}
window_size none true display usable = at_display display usable
window_size none false display usable = windowed usable
