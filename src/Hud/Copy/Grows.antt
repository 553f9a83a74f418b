-- ===== src/Hud/Copy/Grows.antt =====
-- A copy of a list stays in the scratch buffer, whatever the list holds.
use hybrid_heaven_recomp.Prelude.{
  ℕ, ◌+◌, ◌*◌, ◌/◌, ◌%◌, ◌^◌, ◌≡◌, ◌⊎◌, inl, inr, refl, ap, ◌∙◌, bit_and, bit_or, bit_xor, Bool,
  true, false, [], ◌∷◌, arith, ◌==◌, if◌then◌else◌, Bool-cases,
}
use hybrid_heaven_recomp.Hud.Memory.{read_word}
use hybrid_heaven_recomp.Hud.Gbi.{Class}
use hybrid_heaven_recomp.Hud.Writer.{Writer, emit}
use hybrid_heaven_recomp.Hud.Writer.Grows.{
  Fits, Grows, Extends-Fits, Grows-refl, Grows-trans, emit-Grows, write_commands-outside, emit_used,
}
use hybrid_heaven_recomp.Hud.Copy.{
  Op, mtx, move_word, move_mem, dl, end_dl, tex_rect, fill_rect, set_scissor, set_fill_color,
  set_t_img, set_c_img, other, count, remember, half, Outcome, next, done, patch,
}

-- The same buffer, memory and use: what was only noted.
keeps :
    (s t : Writer)
    → t.base ≡ s.base
    → t.size ≡ s.size
    → t.used ≡ s.used
    → t.rdram ≡ s.rdram
    → t.overflow ≡ s.overflow
    → Grows s t
keeps s t b z u r o f = record {
  same_base = b;
  same_size = z;
  low = omega arith;
  high = omega (arith, f.room);
  outside = λ a h. ap (λ m. m a) r;
  sticky = λ h. o ∙ h;
}

pub count-Grows : (cls : Class) (s : Writer) → Grows s (count cls s)
unfolding count
count-Grows cls s = keeps s (count cls s) refl refl refl refl refl

pub either-Grows :
    (b : Bool) (s t u : Writer) → Grows s t → Grows s u → Grows s (if b then t else u)
either-Grows true s t u g h = g
either-Grows false s t u g h = h

pub remember-Grows : (op : Op) (w0 w1 : ℕ) (s : Writer) → Grows s (remember op w0 w1 s)
unfolding remember
remember-Grows move_word w0 w1 s =
    either-Grows (w0 / 2 ^ 16 % 256 == 0x06) s _ s (keeps s _ refl refl refl refl refl)
      (Grows-refl s)
remember-Grows move_mem w0 w1 s =
    either-Grows (w0 % 256 == 0x08) s _ s (keeps s _ refl refl refl refl refl) (Grows-refl s)
remember-Grows mtx w0 w1 s =
    either-Grows (bit_and (bit_xor (w0 % 256) 0x01) 0x04 == 0) s s _ (Grows-refl s)
      (keeps s _ refl refl refl refl refl)
remember-Grows set_scissor w0 w1 s = keeps s _ refl refl refl refl refl
remember-Grows set_c_img w0 w1 s = keeps s _ refl refl refl refl refl
remember-Grows set_t_img w0 w1 s = keeps s _ refl refl refl refl refl
remember-Grows set_fill_color w0 w1 s = keeps s _ refl refl refl refl refl
remember-Grows dl w0 w1 s = Grows-refl s
remember-Grows end_dl w0 w1 s = Grows-refl s
remember-Grows tex_rect w0 w1 s = Grows-refl s
remember-Grows fill_rect w0 w1 s = Grows-refl s
remember-Grows other w0 w1 s = Grows-refl s

pub half-Grows : (op : ℕ) (s : Writer) (pc : ℕ) → Grows s (half op (s, pc)).0
unfolding half
half-Grows op s pc = elim (Bool-cases (read_word s.rdram pc / 2 ^ 24 % 256 == op)) [
  | inl e ↦ rw e (emit-Grows (read_word s.rdram pc) (read_word s.rdram (pc + 4)) s)
  | inr e ↦ rw e (Grows-refl s)
]

-- A round ends in a state that grew, and a result is 0 with the overflow noted, or the copy's address.
abbrev pub Ends : ℕ → Writer → Writer × ℕ → Type 0
Ends start s r =
    Grows s r.0
    × (((r.0.overflow ≡ true) × (r.1 ≡ 0)) ⊎ (r.1 ≡ bit_or 0x8000_0000 (s.base + start)))

abbrev pub Proceeds : ℕ → Writer → Outcome → Type 0
Proceeds start s (next t pc branch) = Grows s t
Proceeds start s (done t result) = Fits s → Ends start s (t, result)

pub either-Proceeds :
    (start : ℕ) (s : Writer) (b : Bool) (x y : Outcome)
    → (b ≡ true → Proceeds start s x)
    → (b ≡ false → Proceeds start s y)
    → Proceeds start s (if b then x else y)
either-Proceeds start s true x y p q = p refl
either-Proceeds start s false x y p q = q refl

abbrev pub Copier : (Writer → ℕ → Writer × ℕ) → Type 0
Copier copy = (s : Writer) (address : ℕ) → Fits s → Ends s.used s (copy s address)

not_overflowed : (s t : Writer) → Fits s → Grows s t → t.overflow ≡ false → s.overflow ≡ false
not_overflowed s t f g h = elim (Bool-cases s.overflow) [
  | inl e ↦ let bad : t.overflow ≡ true = (g f).sticky e in cc
  | inr e ↦ e
]

-- The patched jump lies in what was added.
pub patch-Grows :
    (s t : Writer) → Grows (emit 0 0 s) t → t.overflow ≡ false → Grows s (patch s.used t)
unfolding patch
patch-Grows s t g h f =
    let e = emit-Grows 0 0 s f in
    let f' = Extends-Fits s (emit 0 0 s) f e in
    let e' = g f' in
    let whole = Grows-trans s (emit 0 0 s) t (emit-Grows 0 0 s) g f in
    let used = emit_used 0 0 s f (not_overflowed (emit 0 0 s) t f' g h) in
    record {
      same_base = whole.same_base;
      same_size = whole.same_size;
      low = whole.low;
      high = whole.high;
      outside = λ a o.
          write_commands-outside t.rdram (t.base + s.used)
            ((0xDE * 2 ^ 24 + 2 ^ 16, bit_or 0x8000_0000 (t.base + t.used)) ∷ []) a
            (elim o [
              | inl x ↦ inl (omega (arith, whole.same_base))
              | inr x ↦ inr (omega (arith, whole.same_base, used, e'.low))
            ])
          ∙ whole.outside a o;
      sticky = whole.sticky;
    }
