-- ===== src/Hud/Writer/Grows.antt =====
-- Whatever is emitted stays in the scratch buffer: the copy grows, and no other word changes.
use hybrid_heaven_recomp.Prelude.{
  ℕ, ◌+◌, ◌*◌, ◌%◌, ◌^◌, ◌≤◌, ◌<◌, ◌≡◌, ◌⊎◌, inl, inr, refl, ◌∙◌, ℤ, pos, true, false, Option, none,
  some, List, [], ◌∷◌, arith, ltb, length, update, Bool-cases, ltb→le,
}
use hybrid_heaven_recomp.Hud.Memory.{Rdram, write_commands}
use hybrid_heaven_recomp.Hud.Gbi.{Gbi, Command, Class, auto, left, right, stretch, spill}
use hybrid_heaven_recomp.Hud.Writer.{
  Writer, reserve, emit, emit_pair, reissue, enable, widen_scissor, widened, restore_scissor,
  projection_group, viewport_align, rect_align, rect_begin, rect_end, group_begin, group_end,
  origin_cancel,
}

-- What is used fits the buffer, which is too small for its sizes to wrap.
pub record Fits (s : Writer) : Type 0 where
  pub room : s.used ≤ s.size
  pub small : s.size < 2 ^ 31

-- The copy `t` extends the copy `s`: the buffer is the same, and every word outside what was added
-- is as before.
pub record Extends (s t : Writer) : Type 0 where
  pub same_base : t.base ≡ s.base
  pub same_size : t.size ≡ s.size
  pub low : s.used ≤ t.used
  pub high : t.used ≤ s.size
  pub outside : (a : ℕ) → (a < s.base + s.used) ⊎ (s.base + t.used ≤ a) → t.rdram a ≡ s.rdram a
  pub sticky : s.overflow ≡ true → t.overflow ≡ true

abbrev pub Grows : Writer → Writer → Type 0
Grows s t = Fits s → Extends s t

pub Extends-Fits : (s t : Writer) → Fits s → Extends s t → Fits t
Extends-Fits s t f e = record { room = rw e.same_size e.high; small = rw e.same_size f.small }

pub Grows-refl : (s : Writer) → Grows s s
Grows-refl s f = record {
  same_base = refl;
  same_size = refl;
  low = omega arith;
  high = f.room;
  outside = λ a h. refl;
  sticky = λ h. h;
}

pub Grows-trans : (s t u : Writer) → Grows s t → Grows t u → Grows s u
Grows-trans s t u g g' f =
    let e = g f in
    let e' = g' (Extends-Fits s t f e) in
    record {
      same_base = e'.same_base ∙ e.same_base;
      same_size = e'.same_size ∙ e.same_size;
      low = omega (arith, e.low, e'.low);
      high = omega (arith, e'.high, e.same_size);
      outside = λ a h.
          e'.outside a (elim h [
            | inl x ↦ inl (omega (arith, e.low, e.same_base))
            | inr x ↦ inr (omega (arith, e.same_base))
          ])
          ∙ e.outside a (elim h [ inl x ↦ inl x | inr x ↦ inr (omega (arith, e'.low)) ]);
      sticky = λ h. e'.sticky (e.sticky h);
    }

pub write_commands-outside :
    (rdram : Rdram) (at : ℕ) (cs : List Command) (a : ℕ)
    → (a < at) ⊎ (at + 8 * length cs ≤ a)
    → write_commands rdram at cs a ≡ rdram a
unfolding write_commands
write_commands-outside rdram at [] a h = refl
write_commands-outside rdram at ((w0, w1) ∷ cs) a h =
    write_commands-outside (update (update rdram at w0) (at + 4) w1) (at + 8) cs a
      (elim h [ inl x ↦ inl (omega arith) | inr x ↦ inr (omega arith) ])
    ∙ (elim h [ inl x ↦ ground arith | inr x ↦ ground arith ])

pub reserve-Grows : (cs : List Command) (s : Writer) → length cs ≤ 2 → Grows s (reserve cs s)
unfolding reserve
reserve-Grows cs s short f = elim (Bool-cases (ltb s.size ((s.used + 8 * length cs) % 2 ^ 32))) [
  | inl e ↦ rw e (record {
    same_base = refl;
    same_size = refl;
    low = omega arith;
    high = f.room;
    outside = λ a h. refl;
    sticky = λ h. refl;
  })
  | inr e ↦
      let le = ltb→le s.size ((s.used + 8 * length cs) % 2 ^ 32) e in
      let whole : (s.used + 8 * length cs) % 2 ^ 32 ≡ s.used + 8 * length cs =
        omega (arith, f.room, f.small) in
      rw (e, whole)
        (record {
          same_base = refl;
          same_size = refl;
          low = omega arith;
          high = omega (arith, le, whole);
          outside = λ a h.
              write_commands-outside s.rdram (s.base + s.used) cs a
                (elim h [ inl x ↦ inl x | inr x ↦ inr (omega arith) ]);
          sticky = λ h. h;
        })
]

pub emit-Grows : (w0 w1 : ℕ) (s : Writer) → Grows s (emit w0 w1 s)
unfolding emit
emit-Grows w0 w1 s = reserve-Grows ((w0, w1) ∷ []) s (omega arith)

emit_pair-Grows : (c : Command × Command) (s : Writer) → Grows s (emit_pair c s)
unfolding emit_pair
emit_pair-Grows (c, d) s = reserve-Grows (c ∷ d ∷ []) s (omega arith)

reissue-Grows : (c : Option Command) (s : Writer) → Grows s (reissue c s)
unfolding reissue
reissue-Grows none s = Grows-refl s
reissue-Grows (some (w0, w1)) s = emit-Grows w0 w1 s

module _ (gbi : Gbi) where
  pub enable-Grows : (s : Writer) → Grows s (enable gbi s)
  unfolding enable
  enable-Grows s = reserve-Grows (gbi.enable ∷ []) s (omega arith)

  widen_scissor-Grows : (s : Writer) → Grows s (widen_scissor gbi s)
  unfolding widen_scissor
  widen_scissor-Grows s = go s.scissor
    where
      go :
          (o : Option Command)
          → Grows s (elim o [ none ↦ s | some c ↦ emit_pair (widened gbi s.fb_width c) s ])
      go none = Grows-refl s
      go (some c) = emit_pair-Grows (widened gbi s.fb_width c) s

  restore_scissor-Grows : (s : Writer) → Grows s (restore_scissor gbi s)
  unfolding restore_scissor
  restore_scissor-Grows s = reissue-Grows s.scissor s

  projection_group-Grows : (aspect : ℕ) (s : Writer) → Grows s (projection_group gbi aspect s)
  unfolding projection_group
  projection_group-Grows aspect s =
      let mid = emit_pair (gbi.matrix_group aspect) s in
      Grows-trans s mid (reissue s.projection mid) (emit_pair-Grows (gbi.matrix_group aspect) s)
        (reissue-Grows s.projection mid)

  viewport_align-Grows :
      (origin : ℕ) (offset : ℤ) (s : Writer) → Grows s (viewport_align gbi origin offset s)
  unfolding viewport_align
  viewport_align-Grows origin offset s =
      let c = gbi.set_viewport_align origin offset (pos 0) in
      let mid = emit_pair c s in
      Grows-trans s mid (reissue s.viewport mid) (emit_pair-Grows c s)
        (reissue-Grows s.viewport mid)

  rect_align-Grows : (origin : ℕ) (off : ℤ) (s : Writer) → Grows s (rect_align gbi origin off s)
  unfolding rect_align
  rect_align-Grows origin off s =
      emit_pair-Grows (gbi.set_rect_align origin origin off (pos 0) off (pos 0)) s

  aspect-Grows : (aspect : ℕ) (s : Writer) → Grows s (reserve (gbi.set_rect_aspect aspect ∷ []) s)
  aspect-Grows aspect s = reserve-Grows (gbi.set_rect_aspect aspect ∷ []) s (omega arith)

  -- The widened scissor, and then a step that grows whatever it is given.
  widened-Grows :
      (step : Writer → Writer) (s : Writer)
      → ((t : Writer) → Grows t (step t))
      → Grows s (step (widen_scissor gbi s))
  widened-Grows step s g =
      Grows-trans s (widen_scissor gbi s) (step (widen_scissor gbi s)) (widen_scissor-Grows s)
        (g (widen_scissor gbi s))

  restored-Grows : (s t : Writer) → Grows s t → Grows s (restore_scissor gbi t)
  restored-Grows s t g = Grows-trans s t (restore_scissor gbi t) g (restore_scissor-Grows t)

  pub rect_begin-Grows : (cls : Class) (s : Writer) → Grows s (rect_begin gbi cls s)
  unfolding rect_begin
  rect_begin-Grows auto s = Grows-refl s
  rect_begin-Grows left s =
      widened-Grows (rect_align gbi gbi.origin_left (pos 0)) s
        (rect_align-Grows gbi.origin_left (pos 0))
  rect_begin-Grows right s =
      let off = origin_cancel gbi gbi.origin_right s in
      widened-Grows (rect_align gbi gbi.origin_right off) s (rect_align-Grows gbi.origin_right off)
  rect_begin-Grows stretch s = aspect-Grows gbi.aspect_stretch s
  rect_begin-Grows spill s = widen_scissor-Grows s

  pub rect_end-Grows : (cls : Class) (s : Writer) → Grows s (rect_end gbi cls s)
  unfolding rect_end
  rect_end-Grows auto s = Grows-refl s
  rect_end-Grows left s =
      restored-Grows s (rect_align gbi gbi.origin_none (pos 0) s)
        (rect_align-Grows gbi.origin_none (pos 0) s)
  rect_end-Grows right s =
      restored-Grows s (rect_align gbi gbi.origin_none (pos 0) s)
        (rect_align-Grows gbi.origin_none (pos 0) s)
  rect_end-Grows stretch s = aspect-Grows gbi.aspect_auto s
  rect_end-Grows spill s = restore_scissor-Grows s

  pub group_begin-Grows : (cls : Class) (s : Writer) → Grows s (group_begin gbi cls s)
  unfolding group_begin
  group_begin-Grows auto s = Grows-refl s
  group_begin-Grows left s =
      let off = origin_cancel gbi gbi.origin_left s in
      widened-Grows (viewport_align gbi gbi.origin_left off) s
        (viewport_align-Grows gbi.origin_left off)
  group_begin-Grows right s =
      let off = origin_cancel gbi gbi.origin_right s in
      widened-Grows (viewport_align gbi gbi.origin_right off) s
        (viewport_align-Grows gbi.origin_right off)
  group_begin-Grows stretch s = projection_group-Grows gbi.aspect_stretch s
  group_begin-Grows spill s = widen_scissor-Grows s

  pub group_end-Grows : (cls : Class) (s : Writer) → Grows s (group_end gbi cls s)
  unfolding group_end
  group_end-Grows auto s = Grows-refl s
  group_end-Grows left s =
      restored-Grows s (viewport_align gbi gbi.origin_none (pos 0) s)
        (viewport_align-Grows gbi.origin_none (pos 0) s)
  group_end-Grows right s =
      restored-Grows s (viewport_align gbi gbi.origin_none (pos 0) s)
        (viewport_align-Grows gbi.origin_none (pos 0) s)
  group_end-Grows stretch s = projection_group-Grows gbi.aspect_auto s
  group_end-Grows spill s = restore_scissor-Grows s

-- A command that did not overflow takes its eight bytes.
pub emit_used :
    (w0 w1 : ℕ) (s : Writer)
    → Fits s
    → (emit w0 w1 s).overflow ≡ false
    → (emit w0 w1 s).used ≡ s.used + 8
unfolding emit reserve
emit_used w0 w1 s f h = elim (Bool-cases (ltb s.size ((s.used + 8) % 2 ^ 32))) [
  | inl e ↦ ground (arith, f.room, f.small)
  | inr e ↦ ground (arith, f.room, f.small)
]
