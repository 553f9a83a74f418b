-- ===== src/Inspector/Shown.antt =====
-- The panel shows every element of the last frame that was finished.
use hybrid_heaven_recomp.Prelude.{
  ◌⊎◌, lookup, Option-cases, ℕ, ◌+◌, ◌%◌, ◌^◌, ◌≤◌, ◌≡◌, inl, inr, refl, ap, ◌∙◌, sym, Bool, true,
  false, Option, none, some, List, [], ◌∷◌, ◌++◌, ltb, if◌then◌else◌, length, length-append,
  append_nil, append_snoc, lt→ltb, arith, Bool-cases, Floats, not, ◌&&◌, bytes_eq, drop,
}
use mathlib.Core.Path.{subst}
use hybrid_heaven_recomp.Hud.Memory.{Rdram}
use hybrid_heaven_recomp.Census.State as CensusState
use hybrid_heaven_recomp.Census.State.{Texts}
use hybrid_heaven_recomp.Census.Walk.{frame_census, per_frame}
use hybrid_heaven_recomp.Census.Bounded.{few_elements}
use hybrid_heaven_recomp.Inspector.Overrides.{Identity, Overrides, Inspector, builtin_class}
use hybrid_heaven_recomp.Inspector.Panel.{
  choose, class_names, choose_named, run_override, test_override,
}
use hybrid_heaven_recomp.Inspector.Frames.{
  Noted, Frames, started, begin_frame, add_element, note_element, end_frame, shown, noted_of,
  note_elements, feed,
}

not_both : (b : Bool) → (not b && false) ≡ false
not_both true = refl
not_both false = refl

same_enabled :
    (b : Bool) (s t : Inspector) → s.enabled ≡ t.enabled → (if b then s else t).enabled ≡ t.enabled
same_enabled true s t e = e
same_enabled false s t e = refl

choose_named-enabled :
    (ns : List (List ℕ)) (c : ℕ) (id name : List ℕ) (s : Inspector)
    → (choose_named ns c id name s).enabled ≡ s.enabled
unfolding choose_named choose
choose_named-enabled [] c id name s = refl
choose_named-enabled (n ∷ ns) c id name s =
    choose_named-enabled ns (c + 1) id name _
    ∙ same_enabled (bytes_eq name n) (choose id c s) s refl

run_override-enabled :
    (due : List ℕ → Bool) (spec : List ℕ) (eq at : Option ℕ) (s : Inspector)
    → (run_override due spec eq at s).1.enabled ≡ s.enabled
unfolding run_override
run_override-enabled due spec none at s = refl
run_override-enabled due spec (some eq) none s = refl
run_override-enabled due spec (some eq) (some at) s = elim (Bool-cases (ltb at eq)) [
  | inl e ↦ rw e refl
  | inr e ↦ elim (Bool-cases (due (drop (at + 1) spec))) [
    | inl d ↦ rw (e, d) (choose_named-enabled class_names 0 _ _ s)
    | inr d ↦ rw (e, d) refl
  ]
]

test_override-enabled :
    (due : List ℕ → Bool) (spec : Option (List ℕ)) (tested : Bool) (s : Inspector)
    → (test_override due spec (tested, s)).1.enabled ≡ s.enabled
unfolding test_override
test_override-enabled due none tested s = refl
test_override-enabled due (some spec) true s = refl
test_override-enabled due (some spec) false s = run_override-enabled due spec _ _ s

builtin_class_lem :
    (builtin : Overrides) (id : Identity)
    → ((lookup builtin id ≡ none) × (builtin_class builtin id ≡ 0))
      ⊎ (lookup builtin id ≡ some (builtin_class builtin id))
unfolding builtin_class
builtin_class_lem builtin id =
    let or_center : Option ℕ → ℕ = λ o. elim o as (λ x. ℕ) [ none ↦ 0 | some cls ↦ cls ] in
    elim (Option-cases (lookup builtin id)) [
      | inl n ↦ inl (n, ap or_center n)
      | inr (c, h) ↦ inr (h ∙ ap some (sym (ap or_center h)))
    ]

module _ {F : Type 0} where
  -- The elements with their classes.
  classed : Overrides → List (CensusState.Element F) → List (Noted F)
  classed builtin [] = []
  classed builtin (e ∷ es) = noted_of builtin e ∷ classed builtin es

  -- The element of the frame is the census's, with its names and extent, drawn in no perspective, and with
  -- the class that the build's table has for its name, 0 where it has none.
  pub record IsNoted (builtin : Overrides) (e : CensusState.Element F) (n : Noted F) : Type 0 where
    pub first : n.identity ≡ e.identity
    pub second : n.second_identity ≡ e.second
    pub left : n.min_x ≡ e.x0
    pub right : n.max_x ≡ e.x1
    pub top : n.min_y ≡ e.y0
    pub bottom : n.max_y ≡ e.y1
    pub flat : n.perspective ≡ false
    pub rect : n.is_rect ≡ e.rect
    pub built :
        ((lookup builtin e.identity ≡ none) × (n.given_class ≡ 0))
        ⊎ (lookup builtin e.identity ≡ some n.given_class)

  -- One element of the frame for each of the census, in its order.
  pub data AllNoted (builtin : Overrides)
      : List (CensusState.Element F) → List (Noted F) → Type 0 where
    none_noted : AllNoted builtin [] []
    one_noted :
        {e : CensusState.Element F} {es : List (CensusState.Element F)} {n : Noted F}
        {ns : List (Noted F)}
        → IsNoted builtin e n
        → AllNoted builtin es ns
        → AllNoted builtin (e ∷ es) (n ∷ ns)

  noted_of-IsNoted :
      (builtin : Overrides) (e : CensusState.Element F) → IsNoted builtin e (noted_of builtin e)
  unfolding noted_of
  noted_of-IsNoted builtin e = record {
    first = refl;
    second = refl;
    left = refl;
    right = refl;
    top = refl;
    bottom = refl;
    flat = refl;
    rect = refl;
    built = builtin_class_lem builtin e.identity;
  }

  classed-AllNoted :
      (builtin : Overrides) (es : List (CensusState.Element F))
      → AllNoted builtin es (classed builtin es)
  unfolding classed
  classed-AllNoted builtin [] = none_noted
  classed-AllNoted builtin (e ∷ es) =
      one_noted (noted_of-IsNoted builtin e) (classed-AllNoted builtin es)

  -- So many elements in the frame that is built, and the rest as it was.
  abbrev Filled : Frames F → List (Noted F) → Frames F → Type 0
  Filled s es t =
      (t.building.elements ≡ es)
      × (t.building.number ≡ s.building.number)
      × (t.inspector.enabled ≡ true)
      × (t.hold ≡ s.hold)
      × (t.held ≡ s.held)

  noted_once :
      (new : Noted F) (s : Frames F)
      → s.inspector.enabled ≡ true
      → ltb (length s.building.elements) 512 ≡ true
      → note_element new s
        ≡ record s { building = record s.building { elements = s.building.elements ++ new ∷ [] } }
  unfolding note_element add_element
  noted_once new s on small = simp (on, small) refl

  note_elements_lem :
      (builtin : Overrides) (es : List (CensusState.Element F)) (s : Frames F)
      → s.inspector.enabled ≡ true
      → length s.building.elements + length es ≤ 512
      → Filled s (s.building.elements ++ classed builtin es) (note_elements builtin es s)
  unfolding note_elements classed
  note_elements_lem builtin [] s on room =
      (sym (append_nil s.building.elements), refl, on, refl, refl)
  note_elements_lem builtin (e ∷ es) s on room =
      let new = noted_of builtin e in
      let t : Frames F = record s {
        building = record s.building { elements = s.building.elements ++ new ∷ [] };
      } in
      let noted : note_element new s ≡ t =
        noted_once new s on (lt→ltb (length s.building.elements) 512 (omega arith)) in
      let (a, b, c, d, f) =
        note_elements_lem builtin es t on
          (omega (arith, length-append s.building.elements (new ∷ []))) in
      let all = s.building.elements ++ new ∷ classed builtin es in
      subst (λ v. Filled s all (note_elements builtin es v)) (sym noted)
        (a ∙ append_snoc s.building.elements new (classed builtin es), b, c, d, f)

  begun :
      (due : List ℕ → Bool) (spec : Option (List ℕ)) (s : Frames F)
      → s.inspector.enabled ≡ true
      → begin_frame due spec 0 s ≡ started 0 (test_override due spec (s.tested, s.inspector)) s
  unfolding begin_frame
  begun due spec s on = simp on refl

  ended :
      (s : Frames F)
      → s.inspector.enabled ≡ true
      → end_frame s ≡ record s { published = s.building }
  unfolding end_frame
  ended s on = simp on refl

  feed-published :
      (due : List ℕ → Bool) (spec : Option (List ℕ)) (builtin : Overrides)
      (es : List (CensusState.Element F)) (s : Frames F)
      → s.inspector.enabled ≡ true
      → length es ≤ 512
      → let t = feed due spec builtin es s in
        (t.published.elements ≡ classed builtin es)
        × (t.published.number ≡ (s.frames + 1) % 2 ^ 64)
        × (t.hold ≡ s.hold)
        × (t.held ≡ s.held)
  unfolding feed started
  feed-published due spec builtin es s on room =
      let u = started 0 (test_override due spec (s.tested, s.inspector)) s in
      let on' = test_override-enabled due spec s.tested s.inspector ∙ on in
      let (a, b, c, d, f) = note_elements_lem builtin es u on' (omega (arith, room)) in
      rw (begun due spec s on, ended (note_elements builtin es u) c) (a, b, d, f)

-- With the inspector on, the frame that the panel is given is the census of the list: every element that
-- the census noted, none lost to the cap of 512, in its order, with its names, its extent and the class
-- that the build's table has for it, 0 where it has none, under the next number. A frame that the panel holds stays as it is, and its list too.
pub per_frame-published :
    {F : Type 0} (fl : Floats F) (texts : Texts F) (snap : Bool) (rdram : Rdram) (list_address : ℕ)
    (due : List ℕ → Bool) (spec : Option (List ℕ)) (builtin : Overrides) (s : Frames F)
    → s.inspector.enabled ≡ true
    → (es : List (CensusState.Element F)) × ((per_frame fl texts snap true rdram list_address).1
        ≡ some es)
      × AllNoted builtin es (feed due spec builtin es s).published.elements
      × ((feed due spec builtin es s).published.number ≡ (s.frames + 1) % 2 ^ 64)
      × (shown (record (feed due spec builtin es s) { hold = true }) ≡ s.held)
unfolding per_frame shown
per_frame-published fl texts snap rdram list_address due spec builtin s on =
    let es = (frame_census fl texts snap true rdram list_address).feed.elements in
    let few = few_elements fl texts snap true rdram list_address in
    let (a, b, c, d) = feed-published due spec builtin es s on (omega arith) in
    let listed : not snap && false ≡ false = not_both snap in
    (
      es,
      ground (arith, listed),
      subst (AllNoted builtin es) (sym a) (classed-AllNoted builtin es),
      b,
      d,
    )
