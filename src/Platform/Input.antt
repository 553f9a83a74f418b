-- ===== src/Platform/Input.antt =====
-- `get_input`, in the build with the frontend and in the one without.
use hybrid_heaven_recomp.Prelude.{
  ℕ, ◌+◌, bit_or, ℤ, pos, negsuc, Bool, false, not, ◌&&◌, Option, none, some, ◌==◌, ltb,
  if◌then◌else◌, Floats,
}

-- The buttons and the stick.
pub record Input (F : Type 0) : Type 0 where
  pub buttons : ℕ
  pub x : F
  pub y : F

-- An axis above and below a threshold.
unfoldable pub above : ℤ → ℕ → Bool
above (pos v) n = ltb n v
above (negsuc v) n = false

unfoldable pub below : ℤ → ℕ → Bool
below (pos v) n = false
below (negsuc v) n = ltb n (v + 1)

unfoldable pub press_if : Bool → ℕ → ℕ → ℕ
press_if held bit pressed = if held then bit_or pressed bit else pressed

-- The controller's buttons that SDL reports held, and its axes.
pub record PadState : Type 0 where
  pub a : Bool
  pub b : Bool
  pub start : Bool
  pub left_shoulder : Bool
  pub right_shoulder : Bool
  pub dpad_up : Bool
  pub dpad_down : Bool
  pub dpad_left : Bool
  pub dpad_right : Bool
  pub trigger_left : ℤ
  pub right_x : ℤ
  pub right_y : ℤ
  pub left_x : ℤ
  pub left_y : ℤ

-- The keys that are down, by name.
pub record Keys : Type 0 where
  pub x : Bool
  pub c : Bool
  pub z : Bool
  pub enter : Bool
  pub a : Bool
  pub s : Bool
  pub i : Bool
  pub k : Bool
  pub j : Bool
  pub l : Bool
  pub t : Bool
  pub g : Bool
  pub f : Bool
  pub h : Bool
  pub left : Bool
  pub right : Bool
  pub up : Bool
  pub down : Bool

-- SDL_CONTROLLER_BUTTON_X is B.
unfoldable pub pad_buttons : PadState → ℕ
pad_buttons p = press_if (above p.right_y 16000) 0x0004 (
    press_if (below p.right_y 16000) 0x0008 (
      press_if (above p.right_x 16000) 0x0001 (
        press_if (below p.right_x 16000) 0x0002 (
          press_if (above p.trigger_left 8000) 0x2000 (
            press_if p.dpad_right 0x0100 (
              press_if p.dpad_left 0x0200 (
                press_if p.dpad_down 0x0400 (
                  press_if p.dpad_up 0x0800 (
                    press_if p.right_shoulder 0x0010 (
                      press_if p.left_shoulder 0x0020 (
                        press_if p.start 0x1000
                          (press_if p.b 0x4000 (press_if p.a 0x8000 0)))))))))))))

unfoldable pub key_buttons : Keys → ℕ → ℕ
key_buttons q pressed = press_if q.h 0x0100 (
    press_if q.f 0x0200 (
      press_if q.g 0x0400 (
        press_if q.t 0x0800 (
          press_if q.l 0x0001 (
            press_if q.j 0x0002 (
              press_if q.k 0x0004 (
                press_if q.i 0x0008 (
                  press_if q.s 0x0010 (
                    press_if q.a 0x0020 (
                      press_if q.enter 0x1000 (
                        press_if q.z 0x2000
                          (press_if q.c 0x4000 (press_if q.x 0x8000 pressed)))))))))))))

-- Whether a port has a player: the second where it is assigned a pad or a script drives it.
unfoldable pub has_player : ℤ → Bool → Bool → Bool
has_player (negsuc n) assigned script_two = false
has_player (pos n) assigned script_two =
    if not (ltb n 2) then false else not (n == 1 && not assigned && not script_two)

module _ {F : Type 0} (fl : Floats F) (deadzone : F) where
  unfoldable pub whole : ℕ → F
  whole n = fl.int (pos n)

  -- With float arithmetic throughout; `deadzone` is 0.12f.
  unfoldable pub axis_to_n64 : ℤ → F
  axis_to_n64 value =
      let normalized = fl.float (fl.div (fl.int value) (whole 32767)) in
      let negative = fl.lt normalized (whole 0) in
      let sign : F = if negative then fl.neg (whole 1) else whole 1 in
      let size : F = if negative then fl.neg normalized else normalized in
      let magnitude =
        fl.float
          (fl.div (fl.float (fl.sub size deadzone)) (fl.float (fl.sub (whole 1) deadzone))) in
      if fl.lt (fl.neg deadzone) normalized && fl.lt normalized deadzone
      then whole 0
      else fl.float (fl.mul (fl.float (fl.mul sign magnitude)) (whole 80))

  -- `v / kN64Range`
  unfoldable pub normal : F → F
  normal v = fl.float (fl.div v (whole 80))

  -- A scripted stick where it is off its centre.
  unfoldable pub off_centre : F → F → F
  off_centre scripted v = if fl.eq scripted (whole 0) then v else scripted

  -- With the frontend: what the profiles give, and the script, whose stick is in the N64's range.
  unfoldable pub merge_script : Input F → Input F → Input F
  merge_script scripted p = record {
    buttons = bit_or p.buttons scripted.buttons;
    x = if fl.eq scripted.x (whole 0) then p.x else normal scripted.x;
    y = if fl.eq scripted.y (whole 0) then p.y else normal scripted.y;
  }

  unfoldable pub no_input : Input F
  no_input = record { buttons = 0; x = whole 0; y = whole 0 }

  unfoldable pub get_input : ℤ → Bool → Bool → Bool → Input F → Input F → Option (Input F)
  get_input controller_num assigned script_two capturing profile scripted =
      if has_player controller_num assigned script_two
      then some (if capturing then no_input else merge_script scripted profile)
      else none

  unfoldable pub pad_input : Option PadState → Input F
  pad_input none = no_input
  pad_input (some p) = record {
    buttons = pad_buttons p;
    x = axis_to_n64 p.left_x;
    y = fl.neg (axis_to_n64 p.left_y);
  }

  unfoldable pub key_input : Option Keys → Input F → Input F
  key_input none p = p
  key_input (some q) p =
      let x' : F = if q.left then fl.neg (whole 80) else p.x in
      let y' : F = if q.up then whole 80 else p.y in
      record {
        buttons = key_buttons q p.buttons;
        x = if q.right then whole 80 else x';
        y = if q.down then fl.neg (whole 80) else y';
      }

  -- Without the frontend: the first controller, the keyboard and the script.
  unfoldable pub get_input_plain : ℤ → Option PadState → Option Keys → Input F → Option (Input F)
  get_input_plain (negsuc n) pad keys scripted = none
  get_input_plain (pos n) pad keys scripted =
      let held = key_input keys (pad_input pad) in
      if n == 0
      then some record {
        buttons = bit_or held.buttons scripted.buttons;
        x = normal (off_centre scripted.x held.x);
        y = normal (off_centre scripted.y held.y);
      }
      else none
