-- ===== src/Platform/Players.antt =====
-- The input library knows the pads that are connected, and the runtime's two questions about a port agree.
use hybrid_heaven_recomp.Prelude.{
  ℕ, ◌≡◌, ◌↔◌, ◌⊎◌, inl, refl, ℤ, pos, negsuc, Bool, true, false, Option, none, some, List, [], ◌∷◌,
  arith, Floats,
}
use hybrid_heaven_recomp.Platform.Pads.{
  Joystick, Players, refresh_players, no_device, get_connected_device_info,
}
use hybrid_heaven_recomp.Platform.Input.{Input, has_player, no_input, get_input}

-- The globals of `refresh_players`, and what the library was given last.
abbrev pub Told : Type 0
Told = Players × Option (List ℕ)

abbrev newest : Option (List ℕ) → Option (List ℕ) → Option (List ℕ)
newest none given = given
newest (some pads) given = some pads

unfoldable pub poll : Told → List Joystick → Told
poll (s, given) js = let (s', call) = refresh_players js s in (s', newest call given)

unfoldable pub polls : Told → List (List Joystick) → Told
polls t [] = t
polls t (js ∷ jss) = polls (poll t js) jss

abbrev pub before_polls : Told
before_polls = (record { assigned_once = false; assigned = [] }, none)

-- Once it was assigned, what was given last is what is remembered.
IsTold : Told → Type 0
IsTold t = t.0.assigned_once ≡ true → t.1 ≡ some t.0.assigned

module _ {F : Type 0} (fl : Floats F) (deadzone : F) where
  -- A port answers with input exactly where the runtime is told that a controller is connected to it,
  -- for every port number; while a menu captures the input, what it answers is nothing pressed and a
  -- centred stick.
  pub get_input-device :
      (port : ℤ) (assigned script_two capturing : Bool) (profile scripted : Input F)
      → ((get_input fl deadzone port assigned script_two capturing profile scripted ≡ none)
          ↔ ((get_connected_device_info port assigned script_two).0 ≡ no_device))
        × ((get_input fl deadzone port assigned script_two true profile scripted ≡ none)
            ⊎ (get_input fl deadzone port assigned script_two true profile scripted
                ≡ some (no_input fl deadzone)))
  unfolding get_input has_player get_connected_device_info
  get_input-device (negsuc n) assigned script_two capturing profile scripted =
      ((λ e. refl, λ e. refl), inl refl)
  get_input-device (pos n) assigned script_two capturing profile scripted =
      (ground arith, ground arith)
