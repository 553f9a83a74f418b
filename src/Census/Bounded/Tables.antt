-- ===== src/Census/Bounded/Tables.antt =====
-- The tables of a census's report: the indices into them stay within them.
use hybrid_heaven_recomp.Prelude.{
  Floats, ℕ, zero, suc, ◌-◌, ◌%◌, ◌≤◌, ◌<◌, ◌≡◌, inl, inr, refl, ap, ◌∙◌, Bool, true, false, not,
  ◌&&◌, Option, none, some, List, [], ◌∷◌, ◌++◌, ◌==◌, bytes_eq, if◌then◌else◌, length, replicate,
  length-append, length-replicate, arith, Bool-cases,
}
use hybrid_heaven_recomp.Census.State.{
  Op, vtx, tri1, tri2, quad, mtx, pop_mtx, move_word, move_mem, dl, end_dl, tex_rect, set_scissor,
  fill_rect, set_fill_color, set_t_img, set_c_img, other, Texts, Core, Rect, Report,
}
use hybrid_heaven_recomp.Census.Elements.{intern}
use hybrid_heaven_recomp.Census.Commands.{
  add_at, resized, count_tris, keep_projection, keep_scissor, rect_of, viewport_of, projection_of,
  report_step,
}

-- An index below a bound, where it is not -1.
abbrev pub Within : Option ℕ → ℕ → Type 0
Within none n = Unit
Within (some i) n = i < n

abbrev pub RectsWithin : List Rect → ℕ → Type 0
RectsWithin [] n = Unit
RectsWithin (r ∷ rs) n = Within r.scissor n × RectsWithin rs n

pub record InTables (s : Report) : Type 0 where
  pub projection : Within s.current_projection (length s.tris_under_projection)
  pub scissor : Within s.current_scissor (length s.scissors)
  pub one_each : length s.tris_under_projection ≡ length s.projections
  pub rectangles : RectsWithin s.rects (length s.scissors)

Within-le : (o : Option ℕ) (n m : ℕ) → n ≤ m → Within o n → Within o m
Within-le none n m h w = w
Within-le (some i) n m h w = omega arith

RectsWithin-le : (rs : List Rect) (n m : ℕ) → n ≤ m → RectsWithin rs n → RectsWithin rs m
RectsWithin-le [] n m h w = w
RectsWithin-le (r ∷ rs) n m h w = (Within-le r.scissor n m h w.0, RectsWithin-le rs n m h w.1)

RectsWithin-append :
    (rs : List Rect) (r : Rect) (n : ℕ)
    → RectsWithin rs n
    → Within r.scissor n
    → RectsWithin (rs ++ r ∷ []) n
RectsWithin-append [] r n w v = (v, tt)
RectsWithin-append (q ∷ rs) r n w v = (w.0, RectsWithin-append rs r n w.1 v)

-- The text is in the table then, and the table has not shrunk.
intern-Within :
    (ts : List (List ℕ)) (text : List ℕ)
    → ((intern ts text).1 < length (intern ts text).0) × (length ts ≤ length (intern ts text).0)
unfolding intern
intern-Within [] text = (omega arith, omega arith)
intern-Within (t ∷ ts) text = elim (Bool-cases (bytes_eq t text)) [
  | inl e ↦ rw e (omega arith, omega arith)
  | inr e ↦ let (x, y) = intern-Within ts text in rw e (omega arith, omega arith)
]

length-add_at : (ts : List ℕ) (i n : ℕ) → length (add_at ts i n) ≡ length ts
unfolding add_at
length-add_at [] i n = refl
length-add_at (t ∷ ts) zero n = refl
length-add_at (t ∷ ts) (suc i) n = ap suc (length-add_at ts i n)

length-resized : (ts : List ℕ) (n : ℕ) → length ts ≤ n → length (resized ts n) ≡ n
unfolding resized
length-resized ts n h =
    let none_yet : ℕ = 0 in
    omega (
      arith,
      length-append ts (replicate (n - length ts) none_yet),
      length-replicate (n - length ts) none_yet,
    )

count_tris-InTables : (o : Option ℕ) (n : ℕ) (s : Report) → InTables s → InTables (count_tris o n s)
unfolding count_tris
count_tris-InTables none n s v = v
count_tris-InTables (some i) n s v =
    let same = length-add_at s.tris_under_projection i n in
    record {
      projection = rw same v.projection;
      scissor = v.scissor;
      one_each = same ∙ v.one_each;
      rectangles = v.rectangles;
    }

keep_projection-InTables :
    (text : List ℕ) (s : Report) → InTables s → InTables (keep_projection text s)
unfolding keep_projection
keep_projection-InTables text s v =
    let (inside, larger) = intern-Within s.projections text in
    let n = length (intern s.projections text).0 in
    let whole = length-resized s.tris_under_projection n (omega (arith, v.one_each)) in
    record {
      projection = omega arith;
      scissor = v.scissor;
      one_each = whole;
      rectangles = v.rectangles;
    }

keep_scissor-InTables : (text : List ℕ) (s : Report) → InTables s → InTables (keep_scissor text s)
unfolding keep_scissor
keep_scissor-InTables text s v =
    let (inside, larger) = intern-Within s.scissors text in
    record {
      projection = v.projection;
      scissor = inside;
      one_each = v.one_each;
      rectangles = RectsWithin-le s.rects _ _ larger v.rectangles;
    }

push-InTables :
    (s : Report) (r : Rect)
    → r.scissor ≡ s.current_scissor
    → InTables s
    → InTables (record s { rects = s.rects ++ r ∷ [] })
push-InTables s r e v = record {
  projection = v.projection;
  scissor = v.scissor;
  one_each = v.one_each;
  rectangles = RectsWithin-append s.rects r _ v.rectangles (rw e v.scissor);
}

pub either-holds {ℓ κ} :
    {A : Type ℓ} (P : A → Type κ) (b : Bool) (x y : A) → P x → P y → P (if b then x else y)
either-holds P true x y p q = p
either-holds P false x y p q = q

module _ {F : Type 0} (fl : Floats F) (texts : Texts F) where
  tris-InTables :
      (hud : Bool) (n : ℕ) (s : Report)
      → InTables s
      → InTables (if hud then s else count_tris s.current_projection n s)
  tris-InTables hud n s v =
      either-holds InTables hud s _ v (count_tris-InTables s.current_projection n s v)

  pub report_step-InTables :
      (op : Op) (w0 w1 : ℕ) (core : Core) (hud : Bool) (s : Report)
      → InTables s
      → InTables (report_step fl texts op w0 w1 core hud s)
  unfolding report_step rect_of
  report_step-InTables tri1 w0 w1 core hud s v = tris-InTables hud 1 s v
  report_step-InTables tri2 w0 w1 core hud s v = tris-InTables hud 2 s v
  report_step-InTables quad w0 w1 core hud s v = tris-InTables hud 2 s v
  report_step-InTables mtx w0 w1 core hud s v =
      either-holds InTables _ _ s (keep_projection-InTables (projection_of fl texts core w0 w1) s v)
        v
  report_step-InTables move_mem w0 w1 core hud s v =
      either-holds InTables (not hud && w0 % 256 == 0x08)
        (record s { viewports = (intern s.viewports (viewport_of fl texts core w1)).0 }) s
        (record {
          projection = v.projection;
          scissor = v.scissor;
          one_each = v.one_each;
          rectangles = v.rectangles;
        })
        v
  report_step-InTables set_scissor w0 w1 core hud s v =
      either-holds InTables core.writable s _ v (keep_scissor-InTables _ s v)
  report_step-InTables fill_rect w0 w1 core hud s v =
      either-holds InTables hud s _ v (push-InTables s _ refl v)
  report_step-InTables tex_rect w0 w1 core hud s v =
      either-holds InTables hud s _ v (push-InTables s _ refl v)
  report_step-InTables vtx w0 w1 core hud s v = v
  report_step-InTables pop_mtx w0 w1 core hud s v = v
  report_step-InTables move_word w0 w1 core hud s v = v
  report_step-InTables dl w0 w1 core hud s v = v
  report_step-InTables end_dl w0 w1 core hud s v = v
  report_step-InTables set_fill_color w0 w1 core hud s v = v
  report_step-InTables set_t_img w0 w1 core hud s v = v
  report_step-InTables set_c_img w0 w1 core hud s v = v
  report_step-InTables other w0 w1 core hud s v = v
