-- ===== src/Script/Entries/Active.antt =====
-- What a script presses, from its active entries alone.
use hybrid_heaven_recomp.Prelude.{
  ℕ, ◌≡◌, refl, ap, sym, Bool, ◌⊎◌, inl, inr, bit_or, true, false, ◌==◌, ==_iff, arith, List, [],
  ◌∷◌, if◌then◌else◌, Bool-cases,
}
use mathlib.Core.Path.{subst}
use hybrid_heaven_recomp.Script.Entries.{
  Floats, ScriptEntry, Script, Pressed, is_active, press_entry, press_entries, nothing_pressed,
  input_script_state,
}

module _ (fl : Floats) where
  -- The entry is the player's, has begun and has not ended.
  pub record IsHeld (player : ℕ) (t : fl.Time) (e : ScriptEntry fl) : Type 0 where
    pub own : e.player ≡ player
    pub begun : fl.before t e.start_seconds ≡ false
    pub going : fl.before t e.end_seconds ≡ true

  -- The entries of a list that are held, in their order.
  pub data Held (player : ℕ) (t : fl.Time)
      : List (ScriptEntry fl) → List (ScriptEntry fl) → Type 0 where
    none : Held player t [] []
    one :
        {e : ScriptEntry fl} {es on : List (ScriptEntry fl)}
        → IsHeld player t e
        → Held player t es on
        → Held player t (e ∷ es) (e ∷ on)
    other :
        {e : ScriptEntry fl} {es on : List (ScriptEntry fl)}
        → ¬ IsHeld player t e
        → Held player t es on
        → Held player t (e ∷ es) on

  pub all_buttons : ℕ → List (ScriptEntry fl) → ℕ
  all_buttons pressed [] = pressed
  all_buttons pressed (e ∷ es) = all_buttons (bit_or pressed e.buttons) es

  -- The last axis that is not centred, or the one given.
  pub last_off_centre : fl.Stick → List fl.Stick → fl.Stick
  last_off_centre stick [] = stick
  last_off_centre stick (x ∷ xs) = last_off_centre (if fl.is_centre x then stick else x) xs

  abbrev pub axes : (ScriptEntry fl → fl.Stick) → List (ScriptEntry fl) → List fl.Stick
  axes axis [] = []
  axes axis (e ∷ es) = axis e ∷ axes axis es

  abbrev pub xs_of : List (ScriptEntry fl) → List fl.Stick
  xs_of es = axes (λ (e : ScriptEntry fl). e.stick_x) es

  abbrev pub ys_of : List (ScriptEntry fl) → List fl.Stick
  ys_of es = axes (λ (e : ScriptEntry fl). e.stick_y) es

  is_active-IsHeld :
      (player : ℕ) (t : fl.Time) (e : ScriptEntry fl)
      → ((is_active fl player t e ≡ true) × IsHeld player t e)
        ⊎ ((is_active fl player t e ≡ false) × (¬ IsHeld player t e))
  unfolding is_active
  is_active-IsHeld player t e = elim (Bool-cases (e.player == player)) [
    | inr o ↦ inr (ground (arith, o), λ held. let p = held.own in absurd (ground (arith, o, p)))
    | inl o ↦ elim (Bool-cases (fl.before t e.start_seconds)) [
      | inl b ↦ inr (ground (arith, b), λ held. let p = held.begun in cc)
      | inr b ↦ elim (Bool-cases (fl.before t e.end_seconds)) [
        | inl g ↦ inl (
          ground (arith, o, b, g),
          record { own = (==_iff e.player player).0 o; begun = b; going = g },
        )
        | inr g ↦ inr (ground (arith, o, b, g), λ held. let p = held.going in cc)
      ]
    ]
  ]

  -- What is pressed after a list's held entries, from what was pressed before.
  abbrev Presses : ℕ → fl.Time → List (ScriptEntry fl) → Pressed fl → Pressed fl → Type 0
  Presses player t es p q =
      (on : List (ScriptEntry fl)) × Held player t es on
      × (q.buttons ≡ all_buttons p.buttons on)
      × (q.stick_x ≡ last_off_centre p.stick_x (xs_of on))
      × (q.stick_y ≡ last_off_centre p.stick_y (ys_of on))

  press_entries-Presses :
      (player : ℕ) (t : fl.Time) (es : List (ScriptEntry fl)) (p : Pressed fl)
      → Presses player t es p (press_entries fl player t es p)
  unfolding press_entries press_entry all_buttons last_off_centre
  press_entries-Presses player t [] p = ([], none, refl, refl, refl)
  press_entries-Presses player t (e ∷ es) p =
      let step : Bool → Pressed fl =
        λ b. press_entries fl player t es (if b then press_entry fl e p else p) in
      elim (is_active-IsHeld player t e) [
        | inl (h, held) ↦
            let (on, all, b, x, y) = press_entries-Presses player t es (press_entry fl e p) in
            subst (Presses player t (e ∷ es) p) (sym (ap step h)) (e ∷ on, one held all, b, x, y)
        | inr (h, free) ↦
            let (on, all, b, x, y) = press_entries-Presses player t es p in
            subst (Presses player t (e ∷ es) p) (sym (ap step h)) (on, other free all, b, x, y)
      ]

  -- A loaded script presses, for a player at a time, the buttons of all of that player's entries that have
  -- begun and not ended then, together; each axis is the last one off centre among them, or centred. One
  -- that is not loaded presses nothing.
  pub input_script_state-Held :
      (s : Script fl) (player : ℕ) (t : fl.Time)
      → let q = input_script_state fl s player t in
        (on : List (ScriptEntry fl)) × Held player t (if s.loaded then s.entries else []) on
        × (q.buttons ≡ all_buttons 0 on)
        × (q.stick_x ≡ last_off_centre fl.centre (xs_of on))
        × (q.stick_y ≡ last_off_centre fl.centre (ys_of on))
  unfolding input_script_state
  input_script_state-Held s player t = elim (Bool-cases s.loaded) [
    | inl e ↦ simp e (press_entries-Presses player t s.entries (nothing_pressed fl))
    | inr e ↦ simp e (unfold all_buttons last_off_centre in ([], none, refl, refl, refl))
  ]
