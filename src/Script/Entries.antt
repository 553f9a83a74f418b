-- ===== src/Script/Entries.antt =====
-- src/testdrive.cpp: the script's entries, and what they press at a time. The notes of a script only
-- reach the log and are left out.
pub mod Loaded
pub mod Active
use hybrid_heaven_recomp.Prelude.{
  ℕ, ◌+◌, bit_or, Bool, true, false, not, ◌&&◌, ◌||◌, Option, none, some, List, [], ◌∷◌, ◌++◌, ◌==◌,
  if◌then◌else◌,
}
use hybrid_heaven_recomp.Script.Buttons.{parse_buttons}

-- `double` and `float`, as the code uses them.
pub record Floats : Type 1 where
  pub Time : Type 0
  pub before : Time → Time → Bool
  pub Stick : Type 0
  pub centre : Stick
  pub is_centre : Stick → Bool

-- A line's fields, as the streams scan them: a stick that is not there is 0.
pub record Fields (fl : Floats) : Type 0 where
  pub start_seconds : fl.Time
  pub end_seconds : fl.Time
  pub button_field : List ℕ
  pub stick_x : fl.Stick
  pub stick_y : fl.Stick

pub record ScriptEntry (fl : Floats) : Type 0 where
  pub start_seconds : fl.Time
  pub end_seconds : fl.Time
  pub buttons : ℕ
  pub stick_x : fl.Stick
  pub stick_y : fl.Stick
  pub player : ℕ

-- `g_script`, `g_script_loaded` and `g_script_has_player_two`.
pub record Script (fl : Floats) : Type 0 where
  pub entries : List (ScriptEntry fl)
  pub loaded : Bool
  pub has_player_two : Bool

abbrev pub no_script : (fl : Floats) → Script fl
no_script fl = record { entries = []; loaded = false; has_player_two = false }

-- The line up to its comment.
unfoldable pub without_comment : List ℕ → List ℕ
without_comment [] = []
without_comment (c ∷ cs) = let rest = without_comment cs in if c == b'#' then [] else c ∷ rest

-- The player, and the buttons after the prefix `2:`.
unfoldable pub player_of : List ℕ → ℕ × List ℕ
player_of [] = (0, [])
player_of (c ∷ []) = (0, c ∷ [])
player_of (c ∷ d ∷ ds) = if c == b'2' && d == b':' then (1, ds) else (0, c ∷ d ∷ ds)

module _ (fl : Floats) where
  unfoldable pub entry_of : Fields fl → ℕ → ℕ → ScriptEntry fl
  entry_of f player buttons = record {
    start_seconds = f.start_seconds;
    end_seconds = f.end_seconds;
    buttons = buttons;
    stick_x = f.stick_x;
    stick_y = f.stick_y;
    player = player;
  }

  -- The entry that is added, or `false` for a name that is no button's.
  unfoldable pub add_entry : Script fl → Fields fl → ℕ → Option ℕ → Script fl × Bool
  add_entry s f player none = (s, false)
  add_entry s f player (some buttons) =
      (record s { entries = s.entries ++ entry_of f player buttons ∷ [] }, true)

  unfoldable pub load_fields : Script fl → Fields fl → Script fl × Bool
  load_fields s f =
      let (player, field) = player_of f.button_field in
      add_entry (record s { has_player_two = s.has_player_two || player == 1 }) f player
        (parse_buttons field)

  -- A line without fields is skipped.
  unfoldable pub load_line : (List ℕ → Option (Fields fl)) → Script fl → List ℕ → Script fl × Bool
  load_line scan s line = elim (scan (without_comment line)) [
    | none ↦ (s, true)
    | some f ↦ load_fields s f
  ]

  unfoldable pub load_lines :
      (List ℕ → Option (Fields fl)) → Script fl → List (List ℕ) → Script fl × Bool
  load_lines scan s [] = (s, true)
  load_lines scan s (line ∷ lines) =
      let (s', ok) = load_line scan s line in
      let rest = load_lines scan s' lines in if ok then rest else (s', false)

  abbrev pub is_empty : List (ScriptEntry fl) → Bool
  is_empty [] = true
  is_empty (e ∷ es) = false

  -- After the lines: the entries are sorted, and count as loaded if there are any.
  unfoldable pub finish :
      (List (ScriptEntry fl) → List (ScriptEntry fl)) → Script fl × Bool → Script fl × Bool
  finish sort (s, false) = (s, false)
  finish sort (s, true) =
      let loaded : Bool = not (is_empty (sort s.entries)) in
      (record s { entries = sort s.entries; loaded = loaded }, loaded)

  -- `file` is what opens at HH_INPUT_SCRIPT, line by line; `sort` is `std::sort` by the start.
  unfoldable pub load_input_script :
      (List ℕ → Option (Fields fl))
      → (List (ScriptEntry fl) → List (ScriptEntry fl))
      → Script fl
      → Option (List (List ℕ))
      → Script fl × Bool
  load_input_script scan sort s none = (s, false)
  load_input_script scan sort s (some lines) = finish sort (load_lines scan s lines)

  unfoldable pub input_script_has_player_two : Script fl → Bool
  input_script_has_player_two s = s.loaded && s.has_player_two

  -- What is pressed, and the two axes.
  pub record Pressed : Type 0 where
    pub buttons : ℕ
    pub stick_x : fl.Stick
    pub stick_y : fl.Stick

  unfoldable pub is_active : ℕ → fl.Time → ScriptEntry fl → Bool
  is_active player t e =
      not
        (not (e.player == player) || fl.before t e.start_seconds || not (fl.before t e.end_seconds))

  unfoldable pub press_entry : ScriptEntry fl → Pressed → Pressed
  press_entry e p = record {
    buttons = bit_or p.buttons e.buttons;
    stick_x = if fl.is_centre e.stick_x then p.stick_x else e.stick_x;
    stick_y = if fl.is_centre e.stick_y then p.stick_y else e.stick_y;
  }

  unfoldable pub press_entries : ℕ → fl.Time → List (ScriptEntry fl) → Pressed → Pressed
  press_entries player t [] p = p
  press_entries player t (e ∷ es) p =
      press_entries player t es (if is_active player t e then press_entry e p else p)

  abbrev pub nothing_pressed : Pressed
  nothing_pressed = record { buttons = 0; stick_x = fl.centre; stick_y = fl.centre }

  unfoldable pub input_script_state : Script fl → ℕ → fl.Time → Pressed
  input_script_state s player t =
      if s.loaded then press_entries player t s.entries nothing_pressed else nothing_pressed
