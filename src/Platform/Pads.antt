-- ===== src/Platform/Pads.antt =====
-- Which pads there are, whose they are, and what the runtime is told of them. A pad is the handle that
-- SDL opens it as.
use hybrid_heaven_recomp.Prelude.{
  ℕ, ℤ, pos, negsuc, Bool, true, ◌&&◌, ◌||◌, Option, none, some, List, [], ◌∷◌, ◌==◌, bytes_eq,
  if◌then◌else◌,
}

-- A joystick by its index: whether it is a game controller, and the handle it opens as, if it does.
pub record Joystick : Type 0 where
  pub is_controller : Bool
  pub opens : Option ℕ

-- The first controller that opens.
unfoldable pub first_opened : List Joystick → Option ℕ
first_opened [] = none
first_opened (j ∷ js) =
    let rest = first_opened js in
    if j.is_controller then elim j.opens [ some pad ↦ some pad | none ↦ rest ] else rest

-- `g_controller` is kept while it is attached.
unfoldable pub refresh_primary_controller : (ℕ → Bool) → List Joystick → Option ℕ → Option ℕ
refresh_primary_controller attached js none = first_opened js
refresh_primary_controller attached js (some pad) =
    if attached pad then some pad else first_opened js

unfoldable pub connected : List Joystick → List ℕ
connected [] = []
connected (j ∷ js) =
    let rest = connected js in
    if j.is_controller then elim j.opens [ some pad ↦ pad ∷ rest | none ↦ rest ] else rest

-- `assigned_once` and `assigned`.
pub record Players : Type 0 where
  pub assigned_once : Bool
  pub assigned : List ℕ

-- With the pads that `auto_assign_controllers` is given, where it is called.
unfoldable pub refresh_players : List Joystick → Players → Players × Option (List ℕ)
refresh_players js s =
    let pads = connected js in
    if s.assigned_once && bytes_eq pads s.assigned
    then (s, none)
    else (record { assigned_once = true; assigned = pads }, some pads)

pub data Device : Type 0 where
  no_device controller : Device

pub data PakKind : Type 0 where
  no_pak controller_pak : PakKind

-- The frontend's build: whether player two is assigned, and whether a script drives it.
unfoldable pub get_connected_device_info : ℤ → Bool → Bool → Device × PakKind
get_connected_device_info (negsuc n) assigned script_two = (no_device, no_pak)
get_connected_device_info (pos n) assigned script_two =
    if n == 0
    then (controller, controller_pak)
    else if n == 1 && (assigned || script_two)
    then (controller, no_pak)
    else (no_device, no_pak)
