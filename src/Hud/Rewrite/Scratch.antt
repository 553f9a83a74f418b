-- ===== src/Hud/Rewrite/Scratch.antt =====
-- `rewrite`: what it changes and what it returns.
use hybrid_heaven_recomp.Prelude.{
  ℕ, ◌+◌, ◌≤◌, ◌<◌, ◌≡◌, ◌⊎◌, inl, inr, refl, ◌==◌, bit_or, Bool, not, ◌||◌, List, arith,
  Bool-cases,
}
use hybrid_heaven_recomp.Hud.Memory.{Rdram}
use hybrid_heaven_recomp.Hud.Gbi.{Gbi, Class}
use hybrid_heaven_recomp.Hud.Writer.{Writer, new_writer}
use hybrid_heaven_recomp.Hud.Writer.Grows.{Fits}
use hybrid_heaven_recomp.Hud.Copy.{copy_list}
use hybrid_heaven_recomp.Hud.Copy.Grows.{Ends}
use hybrid_heaven_recomp.Hud.Copy.Confined.{copy_list-Copier}
use hybrid_heaven_recomp.Hud.Rewrite.{scratch, scratch_size, Rewriter, submit, rewrite}

-- A fresh copy: its bytes, and what it returns.
fresh :
    (gbi : Gbi) (class_of : List ℕ → Class) (rdram : Rdram) (turn : Bool) (address : ℕ)
    → let w = new_writer rdram (scratch turn) scratch_size in
      Ends 0 w (copy_list gbi class_of 10 w address) × Fits w
unfolding new_writer
fresh gbi class_of rdram turn address =
    let w = new_writer rdram (scratch turn) scratch_size in
    let f : Fits w = record { room = omega arith; small = omega arith } in
    (copy_list-Copier gbi class_of 10 w address f, f)

submitted :
    (rdram : Rdram) (turn : Bool) (off any_classes : Bool) (gbi : Gbi) (class_of : List ℕ → Class)
    (r : Writer × ℕ)
    → Fits (new_writer rdram (scratch turn) scratch_size)
    → Ends 0 (new_writer rdram (scratch turn) scratch_size) r
    → let (s', copy) = submit gbi class_of off any_classes r turn in
      ((copy ≡ 0) ⊎ (copy ≡ bit_or 0x8000_0000 (scratch turn)))
      × ((a : ℕ) → (a < scratch turn) ⊎ (scratch turn + scratch_size ≤ a) → s'.rdram a ≡ rdram a)
unfolding submit new_writer
submitted rdram turn off any_classes gbi class_of (w, copy) f (g, result) = (
  elim (Bool-cases (w.overflow || copy == 0)) [
    | inl e ↦ rw e (inl refl)
    | inr e ↦ rw e (elim result [ inl x ↦ inl x.1 | inr x ↦ inr (ground (arith, x)) ])
  ],
  λ a o.
      let x = g f in
      x.outside a (elim o [ inl h ↦ inl (omega arith) | inr h ↦ inr (omega (arith, x.high)) ]),
)

-- For any RDRAM, any display list, any classes and any words of RT64's commands: the copy that is
-- returned is at the start of the scratch buffer whose turn it is, or 0 is returned and the game's own
-- list is submitted; outside that buffer no word of RDRAM changes, also where the copy did not fit.
pub rewrite_lem :
    (gbi : Gbi) (class_of : List ℕ → Class) (off any_classes : Bool) (s : Rewriter) (address : ℕ)
    → let (s', copy) = rewrite gbi class_of off any_classes s address in
      ((copy ≡ 0) ⊎ (copy ≡ bit_or 0x8000_0000 (scratch s'.turn)))
      × ((a : ℕ)
          → (a < scratch s'.turn) ⊎ (scratch s'.turn + scratch_size ≤ a)
          → s'.rdram a ≡ s.rdram a)
unfolding rewrite submit
rewrite_lem gbi class_of off any_classes s address = elim (Bool-cases (off || not any_classes)) [
  | inl e ↦ rw e (inl refl, λ a o. refl)
  | inr e ↦
      let w = new_writer s.rdram (scratch (not s.turn)) scratch_size in
      let (ends, fits) = fresh gbi class_of s.rdram (not s.turn) address in
      rw e (
        submitted s.rdram (not s.turn) off any_classes gbi class_of
          (copy_list gbi class_of 10 w address) fits ends)
]
