-- ===== src/Census/Bounded/Feeds.antt =====
-- The inspector's feed: the matrix stack stays within its array, and the elements are few and distinct.
use hybrid_heaven_recomp.Prelude.{
  Floats, ℕ, zero, suc, ◌+◌, ◌%◌, ◌≤◌, ◌≡◌, inl, inr, refl, Bool, true, false, List, [], ◌∷◌, ◌==◌,
  ltb, if◌then◌else◌, length, arith, Bool-cases, ltb→lt,
}
use hybrid_heaven_recomp.Census.State.{
  Op, vtx, tri1, tri2, quad, mtx, pop_mtx, move_word, move_mem, dl, end_dl, tex_rect, set_scissor,
  fill_rect, set_fill_color, set_t_img, set_c_img, other, Core, Element, M4, Feed,
}
use hybrid_heaven_recomp.Census.Commands.{has_bit}
use hybrid_heaven_recomp.Census.Elements.{is_same, grow, note_in, note, note_triangle}
use hybrid_heaven_recomp.Census.Feeding.{
  note_fill, load_verts, load_vtx, load_projection, push_mtx, load_modelview, load_mtx,
  load_viewport, note_indices, feed_step,
}
use hybrid_heaven_recomp.Census.Bounded.Tables.{either-holds}

module _ {F : Type 0} (fl : Floats F) where
  -- No later element has this one's name and kind.
  abbrev pub Fresh : Element F → List (Element F) → Type 0
  Fresh e [] = Unit
  Fresh e (x ∷ xs) = (is_same fl x e ≡ false) × Fresh e xs

  abbrev pub Distinct : List (Element F) → Type 0
  Distinct [] = Unit
  Distinct (x ∷ xs) = Fresh x xs × Distinct xs

  pub record InBounds (s : Feed F) : Type 0 where
    pub depth : s.mv_depth ≤ 17
    pub few : length s.elements ≤ 256
    pub distinct : Distinct s.elements

  Fresh-grow : (new x : Element F) (xs : List (Element F)) → Fresh x xs → Fresh (grow fl new x) xs
  unfolding grow is_same
  Fresh-grow new x [] f = f
  Fresh-grow new x (y ∷ ys) f = (f.0, Fresh-grow new x ys f.1)

  note_in-Fresh :
      (room : Bool) (new e : Element F) (xs : List (Element F))
      → is_same fl new e ≡ false
      → Fresh e xs
      → Fresh e (note_in fl room new xs)
  unfolding note_in grow is_same
  note_in-Fresh true new e [] h f = (h, tt)
  note_in-Fresh false new e [] h f = tt
  note_in-Fresh room new e (x ∷ xs) h f =
      either-holds (Fresh e) (is_same fl new x) (grow fl new x ∷ xs) (x ∷ note_in fl room new xs)
        (f.0, f.1) (f.0, note_in-Fresh room new e xs h f.1)

  note_in-Distinct :
      (room : Bool) (new : Element F) (xs : List (Element F))
      → Distinct xs
      → Distinct (note_in fl room new xs)
  unfolding note_in
  note_in-Distinct true new [] d = (tt, tt)
  note_in-Distinct false new [] d = tt
  note_in-Distinct room new (x ∷ xs) d = elim (Bool-cases (is_same fl new x)) [
    | inl e ↦ rw e (Fresh-grow new x xs d.0, d.1)
    | inr e ↦ rw e (note_in-Fresh room new x xs e d.0, note_in-Distinct room new xs d.1)
  ]

  abbrev bump : Bool → ℕ
  bump true = 1
  bump false = 0

  length-note_in :
      (room : Bool) (new : Element F) (xs : List (Element F))
      → length (note_in fl room new xs) ≤ length xs + bump room
  unfolding note_in
  length-note_in true new [] = omega arith
  length-note_in false new [] = omega arith
  length-note_in room new (x ∷ xs) = elim (Bool-cases (is_same fl new x)) [
    | inl e ↦ rw e (omega arith)
    | inr e ↦ rw e (omega (arith, length-note_in room new xs))
  ]

  within_256 :
      (xs : List (Element F)) (new : Element F)
      → length xs ≤ 256
      → length (note_in fl (ltb (length xs) 256) new xs) ≤ 256
  within_256 xs new h = elim (Bool-cases (ltb (length xs) 256)) [
    | inl e ↦ rw e (omega (arith, length-note_in true new xs, ltb→lt _ _ e))
    | inr e ↦ rw e (omega (arith, length-note_in false new xs))
  ]

  note-InBounds : (new : Element F) (s : Feed F) → InBounds s → InBounds (note fl new s)
  unfolding note
  note-InBounds new s v = record {
    depth = v.depth;
    few = within_256 s.elements new v.few;
    distinct = note_in-Distinct _ new s.elements v.distinct;
  }

  pub kept : (s t : Feed F) → t.mv_depth ≤ 17 → t.elements ≡ s.elements → InBounds s → InBounds t
  kept s t d e v = record { depth = d; few = rw e v.few; distinct = rw e v.distinct }

  note_triangle-InBounds :
      (core : Core) (a b c : ℕ) (s : Feed F) → InBounds s → InBounds (note_triangle fl core a b c s)
  unfolding note_triangle
  note_triangle-InBounds core a b c s v = either-holds InBounds _ s _ v (note-InBounds _ s v)

  note_fill-InBounds :
      (ident : List ℕ) (core : Core) (w0 w1 : ℕ) (s : Feed F)
      → InBounds s
      → InBounds (note_fill fl ident core w0 w1 s)
  unfolding note_fill
  note_fill-InBounds [] core w0 w1 s v = v
  note_fill-InBounds (c ∷ cs) core w0 w1 s v = note-InBounds _ s v

  load_verts-InBounds :
      (core : Core) (rounds i at : ℕ) (s : Feed F)
      → InBounds s
      → InBounds (load_verts fl core rounds i at s)
  unfolding load_verts
  load_verts-InBounds core zero i at s v = v
  load_verts-InBounds core (suc rounds) i at s v =
      either-holds InBounds _ _ s
        (load_verts-InBounds core rounds (i + 1) (at + 16) _ (kept s _ v.depth refl v)) v

  push_mtx-InBounds : (s : Feed F) → InBounds s → InBounds (push_mtx fl s)
  unfolding push_mtx
  push_mtx-InBounds s v = elim (Bool-cases (ltb s.mv_depth 17)) [
    | inl e ↦ let below = ltb→lt _ _ e in rw e (kept s _ (omega arith) refl v)
    | inr e ↦ rw e v
  ]

  load_modelview-InBounds :
      (load : Bool) (m : M4 F) (s : Feed F) → InBounds s → InBounds (load_modelview fl load m s)
  unfolding load_modelview
  load_modelview-InBounds load m s v = kept s _ v.depth refl v

  load_mtx-InBounds :
      (params : ℕ) (m : M4 F) (s : Feed F) → InBounds s → InBounds (load_mtx fl params m s)
  unfolding load_mtx load_projection
  load_mtx-InBounds params m s v =
      let load = has_bit params 0x02 in
      let projected = load_projection fl load m s in
      let pushed : Feed F = if has_bit params 0x01 then push_mtx fl s else s in
      let pushed_in = either-holds InBounds (has_bit params 0x01) _ s (push_mtx-InBounds s v) v in
      either-holds InBounds (has_bit params 0x04) projected (load_modelview fl load m pushed)
        (kept s projected v.depth refl v) (load_modelview-InBounds load m pushed pushed_in)

  pub feed_step-InBounds :
      (op : Op) (w0 w1 : ℕ) (core : Core) (s : Feed F)
      → InBounds s
      → InBounds (feed_step fl op w0 w1 core s)
  unfolding feed_step load_vtx note_indices load_viewport
  feed_step-InBounds vtx w0 w1 core s v =
      either-holds InBounds s.hud _ s
        (either-holds InBounds _ s _ v (load_verts-InBounds core _ _ _ s v)) v
  feed_step-InBounds tri1 w0 w1 core s v = note_triangle-InBounds core _ _ _ s v
  feed_step-InBounds tri2 w0 w1 core s v =
      note_triangle-InBounds core _ _ _ _ (note_triangle-InBounds core _ _ _ s v)
  feed_step-InBounds quad w0 w1 core s v =
      note_triangle-InBounds core _ _ _ _ (note_triangle-InBounds core _ _ _ s v)
  feed_step-InBounds mtx w0 w1 core s v =
      either-holds InBounds s.hud _ s (load_mtx-InBounds _ _ s v) v
  feed_step-InBounds pop_mtx w0 w1 core s v = kept s _ (omega (arith, v.depth)) refl v
  feed_step-InBounds move_mem w0 w1 core s v =
      either-holds InBounds (w0 % 256 == 0x08) (load_viewport fl core w1 s) s
        (kept s _ v.depth refl v) v
  feed_step-InBounds set_t_img w0 w1 core s v =
      either-holds InBounds s.hud _ s (kept s _ v.depth refl v) v
  feed_step-InBounds fill_rect w0 w1 core s v =
      either-holds InBounds s.hud _ s (note_fill-InBounds _ core w0 w1 s v) v
  feed_step-InBounds tex_rect w0 w1 core s v =
      either-holds InBounds s.hud _ s (note-InBounds _ s v) v
  feed_step-InBounds move_word w0 w1 core s v = v
  feed_step-InBounds dl w0 w1 core s v = v
  feed_step-InBounds end_dl w0 w1 core s v = v
  feed_step-InBounds set_scissor w0 w1 core s v = v
  feed_step-InBounds set_fill_color w0 w1 core s v = v
  feed_step-InBounds set_c_img w0 w1 core s v = v
  feed_step-InBounds other w0 w1 core s v = v
