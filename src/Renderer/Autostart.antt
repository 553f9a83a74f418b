-- ===== src/Renderer/Autostart.antt =====
-- `maybe_autostart`, which the main loop calls in every round.
use hybrid_heaven_recomp.Prelude.{
  ℕ, ◌+◌, Bool, true, false, not, ◌||◌, Option, none, some, List, [], ◌∷◌, ◌==◌, ltb, if◌then◌else◌,
}

-- `frames` and `fired`.
pub record Autostart : Type 0 where
  pub frames : ℕ
  pub fired : Bool

-- HH_AUTOSTART
unfoldable pub is_armed : Option (List ℕ) → Bool
is_armed none = false
is_armed (some []) = false
is_armed (some (c ∷ cs)) = not (c == b'0')

-- With the answer of `is_rom_valid`, where it is asked: the game is started where it is true.
unfoldable pub maybe_autostart : Bool → Bool → Autostart → Autostart × Option Bool
maybe_autostart armed rom_valid s =
    if not armed || s.fired
    then (s, none)
    else if ltb (s.frames + 1) 60
    then (record s { frames = s.frames + 1 }, none)
    else (record { frames = s.frames + 1; fired = true }, some rom_valid)
