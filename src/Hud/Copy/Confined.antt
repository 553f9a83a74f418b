-- ===== src/Hud/Copy/Confined.antt =====
-- `copy_list`: its effects are confined to the scratch buffer at every depth, and its result.
use hybrid_heaven_recomp.Prelude.{
  ℕ, zero, suc, ◌+◌, ◌/◌, ◌^◌, ◌≡◌, inl, refl, Bool, true, false, ◌||◌, Option, none, some, List,
  arith, leb,
}
use hybrid_heaven_recomp.Hud.Memory.{read_word}
use hybrid_heaven_recomp.Hud.Gbi.{Gbi, Class, auto}
use hybrid_heaven_recomp.Hud.Writer.{Writer, physical, enable}
use hybrid_heaven_recomp.Hud.Writer.Grows.{Fits, Grows, Extends-Fits, Grows-trans, enable-Grows}
use hybrid_heaven_recomp.Hud.Copy.{
  Outcome, next, done, op_of, give_up, copy_command, round, copy_from, copy_body, copy_list,
}
use hybrid_heaven_recomp.Hud.Copy.Grows.{Ends, Proceeds, Copier}
use hybrid_heaven_recomp.Hud.Copy.Commands.{copy_command-Proceeds}

-- The copy of what follows a state that grew.
Ends-after :
    (start : ℕ) (s t : Writer) (r : Writer × ℕ)
    → Grows s t
    → (Fits t → Ends start t r)
    → Fits s
    → Ends start s r
Ends-after start s t r g e f =
    let x = g f in
    let (h, result) = e (Extends-Fits s t f x) in (Grows-trans s t r.0 g h, rw⁻¹ x.same_base result)

give_up-Ends : (start : ℕ) (s : Writer) → Ends start s (give_up s, 0)
unfolding give_up
give_up-Ends start s = (
  λ f. record {
    same_base = refl;
    same_size = refl;
    low = omega arith;
    high = f.room;
    outside = λ a h. refl;
    sticky = λ h. refl;
  },
  inl (refl, refl),
)

continued :
    (start : ℕ) (s : Writer) (o : Outcome) (k : Writer → ℕ → Class → Writer × ℕ)
    → Fits s
    → Proceeds start s o
    → ((t : Writer) (pc : ℕ) (branch : Class) → Fits t → Ends start t (k t pc branch))
    → Ends start s (elim o [ next t pc branch ↦ k t pc branch | done t result ↦ (t, result) ])
continued start s (next t pc branch) k f g h =
    Ends-after start s t (k t pc branch) g (h t pc branch) f
continued start s (done t result) k f e h = e f

module _ (gbi : Gbi) (class_of : List ℕ → Class) where
  Allowed : Option (Writer → ℕ → Writer × ℕ) → Type 0
  Allowed callee = (copy : Writer → ℕ → Writer × ℕ) → callee ≡ some copy → Copier copy

  round-Proceeds :
      (callee : Option (Writer → ℕ → Writer × ℕ)) (start : ℕ) (s : Writer) (pc : ℕ) (branch : Class)
      → Allowed callee
      → Proceeds start s (round gbi class_of callee start s pc branch)
  unfolding round Allowed
  round-Proceeds callee start s pc branch c = go (s.overflow || leb 0x80_0000 pc)
    where
      w0 : ℕ
      w0 = read_word s.rdram pc

      w1 : ℕ
      w1 = read_word s.rdram (pc + 4)

      go :
          (b : Bool)
          → Proceeds start s (elim b [
            | true ↦ done (give_up s) 0
            | false ↦
                copy_command gbi class_of callee start (op_of (w0 / 2 ^ 24)) w0 w1 s (pc + 8) branch
          ])
      go true = λ f. give_up-Ends start s
      go false =
          copy_command-Proceeds gbi class_of callee start (op_of (w0 / 2 ^ 24)) w0 w1 s (pc + 8)
            branch c

  copy_from-Ends :
      (callee : Option (Writer → ℕ → Writer × ℕ)) (start guard : ℕ) (s : Writer) (pc : ℕ)
      (branch : Class)
      → Allowed callee
      → Fits s
      → Ends start s (copy_from gbi class_of callee start guard s pc branch)
  unfolding copy_from
  copy_from-Ends callee start zero s pc branch c f = give_up-Ends start s
  copy_from-Ends callee start (suc guard) s pc branch c f =
      continued start s (round gbi class_of callee start s pc branch)
        (λ t pc' branch'. copy_from gbi class_of callee start guard t pc' branch') f
        (round-Proceeds callee start s pc branch c)
        (λ t pc' branch'. copy_from-Ends callee start guard t pc' branch' c)

  copy_body-Copier :
      (callee : Option (Writer → ℕ → Writer × ℕ))
      → Allowed callee
      → Copier (copy_body gbi class_of callee)
  unfolding copy_body
  copy_body-Copier callee c s address f =
      let t = enable gbi s in
      let pc = physical t.segments address in
      Ends-after s.used s t (copy_from gbi class_of callee s.used 40000 t pc auto)
        (enable-Grows gbi s) (copy_from-Ends callee s.used 40000 t pc auto c) f

  -- For any display list and any nesting, from a state whose use fits its buffer: the copy's bytes
  -- stay in the buffer, from what was used before it; no other word of RDRAM changes; and the result is
  -- the KSEG0 address of the copy, or 0 with the overflow noted.
  pub copy_list-Copier : (left : ℕ) → Copier (copy_list gbi class_of left)
  unfolding copy_list Allowed
  copy_list-Copier zero s address f = copy_body-Copier none (λ copy e. cc) s address f
  copy_list-Copier (suc left) s address f =
      copy_body-Copier (some (copy_list gbi class_of left))
        (λ copy e.
          let same : copy_list gbi class_of left ≡ copy = cc in rw⁻¹ same (copy_list-Copier left))
        s address f
