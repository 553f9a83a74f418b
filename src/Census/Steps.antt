-- ===== src/Census/Steps.antt =====
-- What holds of each step of the walk holds of the walk: a relation between the states before and after.
use hybrid_heaven_recomp.Prelude.{
  Floats, ℕ, zero, suc, ◌+◌, ◌/◌, ◌%◌, ◌^◌, Bool, true, false, not, List, ◌==◌, leb, if◌then◌else◌,
}
use hybrid_heaven_recomp.Hud.Memory.{read_word}
use hybrid_heaven_recomp.Hud.Writer.{physical}
use hybrid_heaven_recomp.Census.State.{
  Op, op_of, is_stray, vtx, tri1, tri2, quad, mtx, pop_mtx, move_word, move_mem, dl, end_dl,
  tex_rect, set_scissor, fill_rect, set_fill_color, set_t_img, set_c_img, other, Texts, Census,
}
use hybrid_heaven_recomp.Census.Walk.{
  Outcome, next, done, strayed, counted, count_command, enter, leave, perform, walk_dl,
  walk_command, round, walk_from, walk,
}

pub record Closed {F : Type 0} (fl : Floats F) (texts : Texts F) (R : Census F → Census F → Type 0)
    : Type 0 where
  pub here : (s : Census F) → R s s
  pub also : (s t u : Census F) → R s t → R t u → R s u
  -- a command, as it stands in the memory of the state
  pub performs :
      (op : Op) (at : ℕ) (s : Census F)
      → R s (perform fl texts op at (read_word s.core.rdram at) (read_word s.core.rdram (at + 4)) s)
  pub counts : (s : Census F) → R s (count_command s)
  pub strays : (address : ℕ) (s : Census F) → R s (record s { core = strayed address s.core })
  pub enters : (w1 : ℕ) (s : Census F) → R s (enter w1 s)
  pub leaves : (caller : ℕ) (ident : List ℕ) (s : Census F) → R s (leave caller ident s)

-- The state that an outcome carries.
abbrev pub After : {F : Type 0} → (Census F → Type 0) → Outcome F → Type 0
After P (next s pc) = P s
After P (done s) = P s

either {ℓ κ} :
    {A : Type ℓ} (P : A → Type κ) (b : Bool) (x y : A) → P x → P y → P (if b then x else y)
either P true x y p q = p
either P false x y p q = q

module _ {F : Type 0} (fl : Floats F) (texts : Texts F) (R : Census F → Census F → Type 0)
    (laws : Closed fl texts R) where
  Walks : (Census F → ℕ → Census F) → Type 0
  Walks callee = (s : Census F) (address : ℕ) → R s (callee s address)

  After-also : (s t : Census F) (o : Outcome F) → R s t → After (R t) o → After (R s) o
  After-also s t (next u pc) r h = laws.also s t u r h
  After-also s t (done u) r h = laws.also s t u r h

  walk_dl-After :
      (callee : Census F → ℕ → Census F) (w0 w1 : ℕ) (s : Census F) (pc : ℕ)
      → Walks callee
      → After (R s) (walk_dl fl texts callee w0 w1 s pc)
  unfolding walk_dl Walks
  walk_dl-After callee w0 w1 s pc c =
      let t = callee (enter w1 s) w1 in
      let back = leave s.core.list_id s.feed.list_ident t in
      either (After (R s)) (not (w0 / 2 ^ 16 % 256 == 0))
        (next (enter w1 s) (physical s.core.segments w1)) (next back pc) (laws.enters w1 s)
        (laws.also s (enter w1 s) back (laws.enters w1 s) (
          laws.also (enter w1 s) t back (c (enter w1 s) w1)
            (laws.leaves s.core.list_id s.feed.list_ident t)))

  walk_command-After :
      (callee : Census F → ℕ → Census F) (op : Op) (at : ℕ) (s : Census F)
      → Walks callee
      → After (R s) (
          walk_command fl texts callee op at
            (read_word s.core.rdram at)
            (read_word s.core.rdram (at + 4))
            s)
  unfolding walk_command
  walk_command-After callee dl at s c =
      let w0 = read_word s.core.rdram at in
      let w1 = read_word s.core.rdram (at + 4) in
      let t = perform fl texts dl at w0 w1 s in
      After-also s t (walk_dl fl texts callee w0 w1 t (at + 8)) (laws.performs dl at s)
        (walk_dl-After callee w0 w1 t (at + 8) c)
  walk_command-After callee vtx at s c = laws.performs vtx at s
  walk_command-After callee tri1 at s c = laws.performs tri1 at s
  walk_command-After callee tri2 at s c = laws.performs tri2 at s
  walk_command-After callee quad at s c = laws.performs quad at s
  walk_command-After callee mtx at s c = laws.performs mtx at s
  walk_command-After callee pop_mtx at s c = laws.performs pop_mtx at s
  walk_command-After callee move_word at s c = laws.performs move_word at s
  walk_command-After callee move_mem at s c = laws.performs move_mem at s
  walk_command-After callee end_dl at s c = laws.performs end_dl at s
  walk_command-After callee tex_rect at s c = laws.performs tex_rect at s
  walk_command-After callee set_scissor at s c = laws.performs set_scissor at s
  walk_command-After callee fill_rect at s c = laws.performs fill_rect at s
  walk_command-After callee set_fill_color at s c = laws.performs set_fill_color at s
  walk_command-After callee set_t_img at s c = laws.performs set_t_img at s
  walk_command-After callee set_c_img at s c = laws.performs set_c_img at s
  walk_command-After callee other at s c = laws.performs other at s

  round-After :
      (callee : Census F → ℕ → Census F) (address : ℕ) (s : Census F) (pc : ℕ)
      → Walks callee
      → After (R s) (round fl texts callee address s pc)
  unfolding round count_command counted
  round-After callee address s pc c =
      let w0 = read_word s.core.rdram pc in
      let w1 = read_word s.core.rdram (pc + 4) in
      let command = walk_command fl texts callee (op_of (w0 / 2 ^ 24)) pc w0 w1 (count_command s) in
      let stray : Outcome F = done (record s { core = strayed address s.core }) in
      let taken = if is_stray (w0 / 2 ^ 24) then stray else command in
      either (After (R s)) (leb 0x80_0000 pc) (done s) taken (laws.here s) (
        either (After (R s)) (is_stray (w0 / 2 ^ 24)) stray command (laws.strays address s) (
          After-also s (count_command s) command (laws.counts s)
            (walk_command-After callee (op_of (w0 / 2 ^ 24)) pc (count_command s) c)))

  continued :
      (s : Census F) (o : Outcome F) (k : Census F → ℕ → Census F)
      → After (R s) o
      → Walks k
      → R s (elim o [ next t pc ↦ k t pc | done t ↦ t ])
  unfolding Walks
  continued s (next t pc) k h w = laws.also s t (k t pc) h (w t pc)
  continued s (done t) k h w = h

  walk_from-Walks :
      (callee : Census F → ℕ → Census F) (address guard : ℕ)
      → Walks callee
      → Walks (walk_from fl texts callee address guard)
  unfolding walk_from Walks
  walk_from-Walks callee address zero c s pc = laws.here s
  walk_from-Walks callee address (suc guard) c s pc =
      continued s (round fl texts callee address s pc) (walk_from fl texts callee address guard)
        (round-After callee address s pc c) (walk_from-Walks callee address guard c)

  pub walk-R : (left : ℕ) (s : Census F) (address : ℕ) → R s (walk fl texts left s address)
  unfolding walk Walks
  walk-R zero s address = laws.here s
  walk-R (suc left) s address =
      walk_from-Walks (walk fl texts left) address 200000 (walk-R left) s
        (physical s.core.segments address)
