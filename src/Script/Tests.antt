-- ===== src/Script/Tests.antt =====
-- A script of three lines, with numbers for times and sticks.
use hybrid_heaven_recomp.Prelude.{
  false, if◌then◌else◌, ℕ, ◌+◌, ◌≡◌, refl, true, Option, none, some, List, [], ◌∷◌, ◌==◌, ltb,
  bytes_eq,
}
use hybrid_heaven_recomp.Script.Buttons.{
  NamedButton, button, buttons, find_button, last_piece, pieces, press, parse_buttons,
}
use hybrid_heaven_recomp.Script.Buttons.Names.{
  Known, joined, names_of, pressed_all, parse_buttons-joined,
}
use hybrid_heaven_recomp.Script.Entries.{
  nothing_pressed, input_script_has_player_two, Floats, Fields, ScriptEntry, Script, no_script,
  without_comment, player_of, entry_of, add_entry, load_fields, load_line, load_lines, finish,
  load_input_script, is_active, press_entry, press_entries, input_script_state,
}
use hybrid_heaven_recomp.Script.Entries.Loaded.{any_player_two, load_input_script_lem}
use hybrid_heaven_recomp.Script.Entries.Active.{
  Held, all_buttons, last_off_centre, xs_of, ys_of, input_script_state-Held,
}

abbrev start_button : NamedButton
start_button = button (b'S' ∷ b'T' ∷ b'A' ∷ b'R' ∷ b'T' ∷ []) 0x1000

abbrev b_button : NamedButton
b_button = button (b'B' ∷ []) 0x4000

start_b-Known : Known (start_button ∷ b_button ∷ [])
unfolding Known find_button buttons bytes_eq
start_b-Known = (refl, (refl, tt))

parse_example :
    parse_buttons (joined start_button.name (names_of (b_button ∷ [])))
    ≡ some (pressed_all 0 (start_button ∷ b_button ∷ []))
parse_example = parse_buttons-joined start_button (b_button ∷ []) start_b-Known

parse_unknown : parse_buttons (b'A' ∷ b',' ∷ b'Q' ∷ []) ≡ none
unfolding parse_buttons pieces press find_button buttons bytes_eq last_piece
parse_unknown = refl

abbrev counted : Floats
counted = record { Time = ℕ; before = ltb; Stick = ℕ; centre = 0; is_centre = λ x. x == 0 }

-- A line is one character that stands for its fields.
abbrev scan : List ℕ → Option (Fields counted)
scan [] = none
scan (c ∷ cs) = some (record {
  start_seconds = c;
  end_seconds = c + 10;
  button_field = cs;
  stick_x = 0;
  stick_y = 80;
})

abbrev lines : List (List ℕ)
lines = (4 ∷ b'A' ∷ b'#' ∷ b'x' ∷ []) ∷ [] ∷ (8 ∷ b'2' ∷ b':' ∷ b'B' ∷ []) ∷ (9 ∷ b'Z' ∷ []) ∷ []

abbrev unsorted : List (ScriptEntry counted) → List (ScriptEntry counted)
unsorted es = es

abbrev script : Script counted
script = (load_input_script counted scan unsorted (no_script counted) (some lines)).0

script_loaded : script.loaded ≡ true
unfolding load_input_script load_lines load_line load_fields add_entry finish without_comment
    player_of parse_buttons pieces press find_button buttons bytes_eq last_piece
script_loaded = refl

active_example :
    let q = input_script_state counted script 0 11 in
    (on : List (ScriptEntry counted)) × Held counted 0 11
      (if script.loaded then script.entries else [])
      on
    × (q.buttons ≡ all_buttons counted 0 on)
    × (q.stick_x ≡ last_off_centre counted 0 (xs_of counted on))
    × (q.stick_y ≡ last_off_centre counted 0 (ys_of counted on))
active_example = input_script_state-Held counted script 0 11

-- A and Z at 11, when both are held.
active_run : (input_script_state counted script 0 11).buttons ≡ 0xA000
unfolding load_input_script load_lines load_line load_fields add_entry entry_of finish
    without_comment player_of parse_buttons pieces press find_button buttons bytes_eq last_piece
    input_script_state press_entries press_entry is_active
active_run = refl

-- An entry is over at its end.
ended_run : (input_script_state counted script 0 1000).buttons ≡ 0
unfolding load_input_script load_lines load_line load_fields add_entry entry_of finish
    without_comment player_of parse_buttons pieces press find_button buttons bytes_eq last_piece
    input_script_state press_entries press_entry is_active
ended_run = refl

load_example :
    let (s, ok) = load_input_script counted scan unsorted (no_script counted) (some lines) in
    (s.loaded ≡ ok)
    × (ok ≡ false
        → (input_script_state counted s 1 9 ≡ nothing_pressed counted)
          × (input_script_has_player_two counted s ≡ false))
    × (ok ≡ true → input_script_has_player_two counted s ≡ any_player_two counted s.entries)
load_example = load_input_script_lem counted scan unsorted (some lines) 1 9 (λ es. refl)
