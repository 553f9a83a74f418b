-- ===== src/Inspector/Frames.antt =====
-- The frames of elements that the classifier fills and the panel shows, and the feed of src/dlcensus.cpp.
use hybrid_heaven_recomp.Prelude.{
  ℕ, ◌+◌, ◌%◌, ◌^◌, Bool, false, Option, List, [], ◌∷◌, ◌++◌, ltb, if◌then◌else◌, length,
}
use hybrid_heaven_recomp.Census.State as CensusState
use hybrid_heaven_recomp.Inspector.Overrides.{Identity, Overrides, builtin_class, Inspector}
use hybrid_heaven_recomp.Inspector.Panel.{test_override}

pub record Noted (F : Type 0) : Type 0 where
  pub identity : Identity
  pub second_identity : Identity
  pub min_x : F
  pub max_x : F
  pub min_y : F
  pub max_y : F
  pub perspective : Bool
  pub is_rect : Bool
  pub given_class : ℕ

pub record Frame (F : Type 0) : Type 0 where
  pub game_state : ℕ
  pub number : ℕ
  pub elements : List (Noted F)

-- The globals: `hold` and `held` are the panel's, `tested` the `done` of the test hook.
pub record Frames (F : Type 0) : Type 0 where
  pub inspector : Inspector
  pub tested : Bool
  pub building : Frame F
  pub published : Frame F
  pub frames : ℕ
  pub hold : Bool
  pub held : Frame F

module _ {F : Type 0} where
  unfoldable pub started : ℕ → Bool × Inspector → Frames F → Frames F
  started game_state (tested', inspector') s =
      let n = (s.frames + 1) % 2 ^ 64 in
      record s {
        tested = tested';
        inspector = inspector';
        frames = n;
        building = record { game_state = game_state; number = n; elements = [] };
      }

  unfoldable pub begin_frame : (List ℕ → Bool) → Option (List ℕ) → ℕ → Frames F → Frames F
  begin_frame due spec game_state s =
      if s.inspector.enabled
      then started game_state (test_override due spec (s.tested, s.inspector)) s
      else s

  -- Into a frame of at most 512.
  unfoldable pub add_element : Noted F → Frame F → Frame F
  add_element e f =
      if ltb (length f.elements) 512 then record f { elements = f.elements ++ e ∷ [] } else f

  unfoldable pub note_element : Noted F → Frames F → Frames F
  note_element e s =
      if s.inspector.enabled then record s { building = add_element e s.building } else s

  unfoldable pub end_frame : Frames F → Frames F
  end_frame s = if s.inspector.enabled then record s { published = s.building } else s

  -- The panel's checkbox, when it changes.
  unfoldable pub set_hold : Bool → Frames F → Frames F
  set_hold hold s = record s { held = if hold then s.published else s.held; hold = hold }

  -- The frame that the panel lists.
  unfoldable pub shown : Frames F → Frame F
  shown s = if s.hold then s.held else s.published

  -- An element of the census, with the class that the build gives it.
  unfoldable pub noted_of : Overrides → CensusState.Element F → Noted F
  noted_of builtin e = record {
    identity = e.identity;
    second_identity = e.second;
    min_x = e.x0;
    max_x = e.x1;
    min_y = e.y0;
    max_y = e.y1;
    perspective = false;
    is_rect = e.rect;
    given_class = builtin_class builtin e.identity;
  }

  unfoldable pub note_elements : Overrides → List (CensusState.Element F) → Frames F → Frames F
  note_elements builtin [] s = s
  note_elements builtin (e ∷ es) s = note_elements builtin es (note_element (noted_of builtin e) s)

  -- The end of `per_frame`, where the inspector is on.
  unfoldable pub feed :
      (List ℕ → Bool)
      → Option (List ℕ)
      → Overrides
      → List (CensusState.Element F)
      → Frames F
      → Frames F
  feed due spec builtin es s = end_frame (note_elements builtin es (begin_frame due spec 0 s))
