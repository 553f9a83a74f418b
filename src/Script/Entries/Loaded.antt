-- ===== src/Script/Entries/Loaded.antt =====
-- When a script counts as loaded, and when it has a second player.
use hybrid_heaven_recomp.Prelude.{
  ℕ, ◌≡◌, refl, ap, sym, ◌∙◌, Bool, true, false, not, ◌||◌, Option, none, some, List, [], ◌∷◌, ◌++◌,
  ◌==◌, if◌then◌else◌, arith,
}
use hybrid_heaven_recomp.Script.Buttons.{parse_buttons}
use hybrid_heaven_recomp.Script.Entries.{
  Floats, Fields, ScriptEntry, Script, no_script, without_comment, player_of, entry_of, add_entry,
  load_fields, load_line, load_lines, load_input_script, finish, is_empty, nothing_pressed,
  input_script_has_player_two, input_script_state,
}

module _ (fl : Floats) where
  pub any_player_two : List (ScriptEntry fl) → Bool
  any_player_two [] = false
  any_player_two (e ∷ es) = e.player == 1 || any_player_two es

  any_player_two-snoc :
      (es : List (ScriptEntry fl)) (e : ScriptEntry fl)
      → any_player_two (es ++ e ∷ []) ≡ (any_player_two es || e.player == 1)
  unfolding any_player_two
  any_player_two-snoc [] e = ground arith
  any_player_two-snoc (x ∷ xs) e = ground (arith, any_player_two-snoc xs e)

  pub Counted : Script fl → Type 0
  Counted s = s.has_player_two ≡ any_player_two s.entries

  -- A step that keeps the count where it succeeds, and never counts as loaded.
  abbrev Sound : Script fl → Script fl × Bool → Type 0
  Sound s r = (r.1 ≡ true → Counted r.0) × (r.0.loaded ≡ s.loaded)

  add_entry-Sound :
      (s : Script fl) (f : Fields fl) (player : ℕ) (o : Option ℕ)
      → Counted s
      → Sound s
          (add_entry fl (record s { has_player_two = s.has_player_two || player == 1 }) f player o)
  unfolding add_entry Counted entry_of
  add_entry-Sound s f player none c = ((λ e. cc), refl)
  add_entry-Sound s f player (some buttons) c =
      let e = entry_of fl f player buttons in
      ((λ h. ap (λ b. b || player == 1) c ∙ sym (any_player_two-snoc s.entries e)), refl)

  load_fields-Sound : (s : Script fl) (f : Fields fl) → Counted s → Sound s (load_fields fl s f)
  unfolding load_fields
  load_fields-Sound s f c =
      let (player, field) = player_of f.button_field in
      add_entry-Sound s f player (parse_buttons field) c

  load_line-Sound :
      (scan : List ℕ → Option (Fields fl)) (s : Script fl) (line : List ℕ)
      → Counted s
      → Sound s (load_line fl scan s line)
  unfolding load_line
  load_line-Sound scan s line c = go (scan (without_comment line))
    where
      go :
          (o : Option (Fields fl))
          → Sound s (elim o [ none ↦ (s, true) | some f ↦ load_fields fl s f ])
      go none = ((λ e. c), refl)
      go (some f) = load_fields-Sound s f c

  chained :
      (s : Script fl) (r rest : Script fl × Bool)
      → Sound s r
      → (Counted r.0 → Sound r.0 rest)
      → Sound s (if r.1 then rest else (r.0, false))
  chained s (t, true) rest (c, same) h = let (c', same') = h (c refl) in (c', same' ∙ same)
  chained s (t, false) rest (c, same) h = ((λ e. cc), same)

  load_lines-Sound :
      (scan : List ℕ → Option (Fields fl)) (s : Script fl) (lines : List (List ℕ))
      → Counted s
      → Sound s (load_lines fl scan s lines)
  unfolding load_lines
  load_lines-Sound scan s [] c = ((λ e. c), refl)
  load_lines-Sound scan s (line ∷ lines) c =
      chained s (load_line fl scan s line) (load_lines fl scan (load_line fl scan s line).0 lines)
        (load_line-Sound scan s line c)
        (λ c'. load_lines-Sound scan (load_line fl scan s line).0 lines c')

  empty-Counted : Counted (no_script fl)
  unfolding Counted any_player_two
  empty-Counted = refl

  off :
      (s : Script fl) (player : ℕ) (t : fl.Time)
      → s.loaded ≡ false
      → (input_script_state fl s player t ≡ nothing_pressed fl)
        × (input_script_has_player_two fl s ≡ false)
  unfolding input_script_state input_script_has_player_two
  off s player t e = (simp e refl, ground arith)

  on :
      (s : Script fl)
      → s.loaded ≡ true
      → Counted s
      → input_script_has_player_two fl s ≡ any_player_two s.entries
  unfolding input_script_has_player_two Counted
  on s e c = simp e c

  finished :
      (sort : List (ScriptEntry fl) → List (ScriptEntry fl)) (r : Script fl × Bool) (player : ℕ)
      (t : fl.Time)
      → ((es : List (ScriptEntry fl)) → any_player_two (sort es) ≡ any_player_two es)
      → r.0.loaded ≡ false
      → (r.1 ≡ true → Counted r.0)
      → let (s, ok) = finish fl sort r in
        (s.loaded ≡ ok)
        × (ok ≡ false
            → (input_script_state fl s player t ≡ nothing_pressed fl)
              × (input_script_has_player_two fl s ≡ false))
        × (ok ≡ true → input_script_has_player_two fl s ≡ any_player_two s.entries)
  unfolding finish Counted
  finished sort (s, false) player t stable unloaded counted =
      (unloaded, λ e. off s player t unloaded, λ e. cc)
  finished sort (s, true) player t stable unloaded counted =
      let s' : Script fl = record s {
        entries = sort s.entries;
        loaded = not (is_empty fl (sort s.entries));
      } in
      (refl, λ e. off s' player t e, λ e. on s' e (counted refl ∙ sym (stable s.entries)))

  -- A first load, whatever the file holds: it reports success exactly if the script is loaded after it;
  -- a script that did not load presses nothing and has no second player, also if some of its lines were
  -- read; and one that loaded has a second player exactly if one of its entries is for player two,
  -- where sorting loses none of them.
  pub load_input_script_lem :
      (scan : List ℕ → Option (Fields fl)) (sort : List (ScriptEntry fl) → List (ScriptEntry fl))
      (file : Option (List (List ℕ))) (player : ℕ) (t : fl.Time)
      → ((es : List (ScriptEntry fl)) → any_player_two (sort es) ≡ any_player_two es)
      → let (s, ok) = load_input_script fl scan sort (no_script fl) file in
        (s.loaded ≡ ok)
        × (ok ≡ false
            → (input_script_state fl s player t ≡ nothing_pressed fl)
              × (input_script_has_player_two fl s ≡ false))
        × (ok ≡ true → input_script_has_player_two fl s ≡ any_player_two s.entries)
  unfolding load_input_script
  load_input_script_lem scan sort none player t stable =
      let s = no_script fl in (refl, (λ e. off s player t refl), (λ e. cc))
  load_input_script_lem scan sort (some lines) player t stable =
      let (counted, unloaded) = load_lines-Sound scan (no_script fl) lines empty-Counted in
      finished sort (load_lines fl scan (no_script fl) lines) player t stable unloaded counted
