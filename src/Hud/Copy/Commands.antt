-- ===== src/Hud/Copy/Commands.antt =====
-- Each command that is copied stays in the scratch buffer.
use hybrid_heaven_recomp.Prelude.{
  ℕ, ◌/◌, ◌%◌, ◌^◌, ◌≡◌, inl, inr, refl, not, Option, none, some, List, [], ◌∷◌, ◌==◌,
}
use hybrid_heaven_recomp.Hud.Gbi.{Gbi, Class, auto}
use hybrid_heaven_recomp.Hud.Identity.{list}
use hybrid_heaven_recomp.Hud.Writer.{
  Writer, physical, emit, enable, rect_begin, rect_end, group_begin, group_end,
}
use hybrid_heaven_recomp.Hud.Writer.Grows.{
  Grows, Grows-trans, emit-Grows, enable-Grows, rect_begin-Grows, rect_end-Grows, group_begin-Grows,
  group_end-Grows,
}
use hybrid_heaven_recomp.Hud.Copy.{
  Op, mtx, move_word, move_mem, dl, end_dl, tex_rect, fill_rect, set_scissor, set_fill_color,
  set_t_img, set_c_img, other, count, remember, half, next, done, fill_identity, copy_fill_rect,
  copy_tex_rect, copy_branch, copy_call, patch, copy_called, copy_dl, copy_command,
}
use hybrid_heaven_recomp.Hud.Copy.Grows.{
  count-Grows, remember-Grows, half-Grows, Proceeds, either-Proceeds, Copier, patch-Grows,
}

module _ (gbi : Gbi) (class_of : List ℕ → Class) where
  bracket-Grows :
      (cls : Class) (w0 w1 : ℕ) (s : Writer) → Grows s (emit w0 w1 (rect_begin gbi cls s))
  bracket-Grows cls w0 w1 s =
      Grows-trans s (rect_begin gbi cls s) (emit w0 w1 (rect_begin gbi cls s))
        (rect_begin-Grows gbi cls s) (emit-Grows w0 w1 (rect_begin gbi cls s))

  close-Grows : (cls : Class) (s t : Writer) → Grows s t → Grows s (count cls (rect_end gbi cls t))
  close-Grows cls s t g =
      let r = rect_end gbi cls t in
      Grows-trans s t (count cls r) g
        (Grows-trans t r (count cls r) (rect_end-Grows gbi cls t) (count-Grows cls r))

  copy_fill_rect-Grows : (w0 w1 : ℕ) (s : Writer) → Grows s (copy_fill_rect gbi class_of w0 w1 s)
  unfolding copy_fill_rect
  copy_fill_rect-Grows w0 w1 s =
      let cls : Class = elim (fill_identity w0 w1 s) [ [] ↦ auto | c ∷ cs ↦ class_of (c ∷ cs) ] in
      close-Grows cls s (emit w0 w1 (rect_begin gbi cls s)) (bracket-Grows cls w0 w1 s)

  halves-Grows : (s : Writer) (pc : ℕ) → Grows s (half 0xF1 (half 0xE1 (s, pc))).0
  halves-Grows s pc =
      let mid = half 0xE1 (s, pc) in
      Grows-trans s mid.0 (half 0xF1 (mid.0, mid.1)).0 (half-Grows 0xE1 s pc)
        (half-Grows 0xF1 mid.0 mid.1)

  copy_tex_rect-Proceeds :
      (start w0 w1 : ℕ) (s : Writer) (pc : ℕ) (branch : Class)
      → Proceeds start s (copy_tex_rect gbi class_of w0 w1 s pc branch)
  unfolding copy_tex_rect
  copy_tex_rect-Proceeds start w0 w1 s pc branch =
      let cls = class_of s.texture_ident in
      let t = emit w0 w1 (rect_begin gbi cls s) in
      let u = (half 0xF1 (half 0xE1 (t, pc))).0 in
      close-Grows cls s u (Grows-trans s t u (bracket-Grows cls w0 w1 s) (halves-Grows t pc))

  copy_branch-Proceeds :
      (start w1 : ℕ) (s : Writer) (branch : Class)
      → Proceeds start s (copy_branch gbi class_of w1 s branch)
  unfolding copy_branch
  copy_branch-Proceeds start w1 s branch =
      let cls = class_of (list s.rdram w1 (physical s.segments w1)) in
      let t = group_end gbi branch s in
      let u = group_begin gbi cls t in
      Grows-trans s t (count cls u) (group_end-Grows gbi branch s)
        (Grows-trans t u (count cls u) (group_begin-Grows gbi cls t) (count-Grows cls u))

  copy_call-Grows :
      (cls : Class) (w0 callee : ℕ) (s : Writer) → Grows s (copy_call gbi class_of cls w0 callee s)
  unfolding copy_call
  copy_call-Grows cls w0 callee s =
      let t = group_begin gbi cls s in
      let u = emit w0 callee t in
      let v = enable gbi u in
      let w = group_end gbi cls v in
      Grows-trans s t (count cls w) (group_begin-Grows gbi cls s) (
        Grows-trans t u (count cls w) (emit-Grows w0 callee t) (
          Grows-trans u v (count cls w) (enable-Grows gbi u)
            (Grows-trans v w (count cls w) (group_end-Grows gbi cls v) (count-Grows cls w))))

  copy_called-Proceeds :
      (start : ℕ) (cls : Class) (w0 : ℕ) (s : Writer) (r : Writer × ℕ) (pc : ℕ) (branch : Class)
      → Grows (emit 0 0 s) r.0
      → Proceeds start s (copy_called gbi class_of s.used cls w0 r pc branch)
  unfolding copy_called
  copy_called-Proceeds start cls w0 s (t, copied) pc branch g =
      either-Proceeds start s t.overflow (done t 0)
        (next (copy_call gbi class_of cls w0 copied (patch s.used t)) pc branch)
        (λ e f. (Grows-trans s (emit 0 0 s) t (emit-Grows 0 0 s) g, inl (e, refl)))
        (λ e.
          Grows-trans s (patch s.used t) (copy_call gbi class_of cls w0 copied (patch s.used t))
            (patch-Grows s t g e) (copy_call-Grows cls w0 copied (patch s.used t)))

  after_emit :
      (copy : Writer → ℕ → Writer × ℕ) (s : Writer) (address : ℕ)
      → Copier copy
      → Grows (emit 0 0 s) (copy (emit 0 0 s) address).0
  after_emit copy s address c f = (c (emit 0 0 s) address f).0 f

  copy_dl-Proceeds :
      (callee : Option (Writer → ℕ → Writer × ℕ)) (start w0 w1 : ℕ) (s : Writer) (pc : ℕ)
      (branch : Class)
      → ((copy : Writer → ℕ → Writer × ℕ) → callee ≡ some copy → Copier copy)
      → Proceeds start s (copy_dl gbi class_of callee w0 w1 s pc branch)
  unfolding copy_dl
  copy_dl-Proceeds none start w0 w1 s pc branch c =
      either-Proceeds start s (not (w0 / 2 ^ 16 % 256 == 0)) (copy_branch gbi class_of w1 s branch)
        (next (copy_call gbi class_of auto w0 w1 s) pc branch)
        (λ e. copy_branch-Proceeds start w1 s branch) (λ e. copy_call-Grows auto w0 w1 s)
  copy_dl-Proceeds (some copy) start w0 w1 s pc branch c =
      let cls = class_of (list s.rdram w1 (physical s.segments w1)) in
      let r = copy (emit 0 0 s) w1 in
      either-Proceeds start s (not (w0 / 2 ^ 16 % 256 == 0)) (copy_branch gbi class_of w1 s branch)
        (copy_called gbi class_of s.used cls w0 r pc branch)
        (λ e. copy_branch-Proceeds start w1 s branch)
        (λ e. copy_called-Proceeds start cls w0 s r pc branch (after_emit copy s w1 (c copy refl)))

  plain-Grows : (op : Op) (w0 w1 : ℕ) (s : Writer) → Grows s (emit w0 w1 (remember op w0 w1 s))
  plain-Grows op w0 w1 s =
      let t = remember op w0 w1 s in
      Grows-trans s t (emit w0 w1 t) (remember-Grows op w0 w1 s) (emit-Grows w0 w1 t)

  pub copy_command-Proceeds :
      (callee : Option (Writer → ℕ → Writer × ℕ)) (start : ℕ) (op : Op) (w0 w1 : ℕ) (s : Writer)
      (pc : ℕ) (branch : Class)
      → ((copy : Writer → ℕ → Writer × ℕ) → callee ≡ some copy → Copier copy)
      → Proceeds start s (copy_command gbi class_of callee start op w0 w1 s pc branch)
  unfolding copy_command
  copy_command-Proceeds callee start end_dl w0 w1 s pc branch c =
      let t = group_end gbi branch s in
      λ f. (
        Grows-trans s t (emit w0 w1 t) (group_end-Grows gbi branch s) (emit-Grows w0 w1 t),
        inr refl,
      )
  copy_command-Proceeds callee start dl w0 w1 s pc branch c =
      copy_dl-Proceeds callee start w0 w1 s pc branch c
  copy_command-Proceeds callee start fill_rect w0 w1 s pc branch c = copy_fill_rect-Grows w0 w1 s
  copy_command-Proceeds callee start tex_rect w0 w1 s pc branch c =
      copy_tex_rect-Proceeds start w0 w1 s pc branch
  copy_command-Proceeds callee start mtx w0 w1 s pc branch c = plain-Grows mtx w0 w1 s
  copy_command-Proceeds callee start move_word w0 w1 s pc branch c = plain-Grows move_word w0 w1 s
  copy_command-Proceeds callee start move_mem w0 w1 s pc branch c = plain-Grows move_mem w0 w1 s
  copy_command-Proceeds callee start set_scissor w0 w1 s pc branch c =
      plain-Grows set_scissor w0 w1 s
  copy_command-Proceeds callee start set_fill_color w0 w1 s pc branch c =
      plain-Grows set_fill_color w0 w1 s
  copy_command-Proceeds callee start set_t_img w0 w1 s pc branch c = plain-Grows set_t_img w0 w1 s
  copy_command-Proceeds callee start set_c_img w0 w1 s pc branch c = plain-Grows set_c_img w0 w1 s
  copy_command-Proceeds callee start other w0 w1 s pc branch c = plain-Grows other w0 w1 s
