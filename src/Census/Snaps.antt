-- ===== src/Census/Snaps.antt =====
-- What the walk does to memory: overscan scissors become full-frame ones, and nothing else changes.
use hybrid_heaven_recomp.Prelude.{
  Floats, ℕ, ◌+◌, ◌*◌, ◌/◌, ◌%◌, ◌^◌, ◌≡◌, ◌⊎◌, inl, inr, refl, sym, ap, ◌∙◌, Bool, true, false,
  ◌&&◌, Option, none, some, ◌==◌, if◌then◌else◌, arith, ==_iff, Bool-cases,
}
use hybrid_heaven_recomp.Hud.Memory.{Rdram, read_word}
use hybrid_heaven_recomp.Census.State.{
  Op, vtx, tri1, tri2, quad, mtx, pop_mtx, move_word, move_mem, dl, end_dl, tex_rect, set_scissor,
  fill_rect, set_fill_color, set_t_img, set_c_img, other, Texts, Core, Census, start_core,
  start_report,
}
use hybrid_heaven_recomp.Census.Commands.{snaps, snap_to, write_word, snap, core_step}
use hybrid_heaven_recomp.Census.Walk.{
  counted, strayed, count_command, set_list, enter, leave, perform, walk, start_feed, frame_census,
  per_frame,
}
use hybrid_heaven_recomp.Census.Steps.{Closed, walk-R}

-- The two insets, 16,8..304,232 and 32,16..608,464, in quarters of a pixel, and the frames they grow to;
-- the mode of the scissor stays.
pub data Widens (w0 w1 : ℕ) : ℕ → ℕ → Type 0 where
  low_res :
      w0 ≡ 0xED04_0020
      → w1 % 2 ^ 24 ≡ 0x4C_03A0
      → Widens w0 w1 0xED00_0000 (w1 / 2 ^ 24 * 2 ^ 24 + 0x50_03C0)
  high_res :
      w0 ≡ 0xED08_0040
      → w1 % 2 ^ 24 ≡ 0x98_0740
      → Widens w0 w1 0xED00_0000 (w1 / 2 ^ 24 * 2 ^ 24 + 0xA0_0780)

-- A memory after so many such scissors have been widened, where each of them stood.
pub data Snapping (r : Rdram) (n : ℕ) : Rdram → ℕ → Type 0 where
  same : Snapping r n r n
  widen :
      {t : Rdram} {m : ℕ} (at n0 n1 : ℕ)
      → Snapping r n t m
      → Widens (read_word t at) (read_word t (at + 4)) n0 n1
      → Snapping r n (write_word (write_word t at n0) (at + 4) n1) (m + 1)

Snapping-trans :
    {r t : Rdram} {n m : ℕ} {u : Rdram} {k : ℕ}
    → Snapping r n t m
    → Snapping t m u k
    → Snapping r n u k
Snapping-trans a same = a
Snapping-trans a (widen at n0 n1 b w) = widen at n0 n1 (Snapping-trans a b) w

pub record Changes (s t : Core) : Type 0 where
  pub same_writable : t.writable ≡ s.writable
  pub snapping : Snapping s.rdram s.snapped t.rdram t.snapped
  pub untouched : s.writable ≡ false → t.rdram ≡ s.rdram

chosen :
    (b : Bool) (p q : ℕ × ℕ) (rest : Option (ℕ × ℕ))
    → (if b then some p else rest) ≡ some q
    → ((b ≡ true) × (p ≡ q)) ⊎ (rest ≡ some q)
chosen true p q rest h = inl (refl, cc)
chosen false p q rest h = inr h

both : (a b : Bool) → (a && b) ≡ true → (a ≡ true) × (b ≡ true)
both true b h = (refl, h)
both false b h = absurd cc

matched : (a b c d : ℕ) → (a == b && c == d) ≡ true → (a ≡ b) × (c ≡ d)
matched a b c d h = let (x, y) = both (a == b) (c == d) h in ((==_iff a b).0 x, (==_iff c d).0 y)

snap_to-Widens : (w0 w1 n0 n1 : ℕ) → snap_to snaps w0 w1 ≡ some (n0, n1) → Widens w0 w1 n0 n1
unfolding snap_to
snap_to-Widens w0 w1 n0 n1 h =
    elim (chosen (w0 == 0xED04_0020 && w1 % 2 ^ 24 == 0x4C_03A0)
      (0xED00_0000, w1 / 2 ^ 24 * 2 ^ 24 + 0x50_03C0) (n0, n1) _ h) [
        | inl (e, p) ↦
            let (x, y) = matched w0 0xED04_0020 (w1 % 2 ^ 24) 0x4C_03A0 e in
            rw⁻¹ (ap (λ q. q.0) p) (rw⁻¹ (ap (λ q. q.1) p) (low_res x y))
        | inr later ↦
            elim (chosen (w0 == 0xED08_0040 && w1 % 2 ^ 24 == 0x98_0740)
              (0xED00_0000, w1 / 2 ^ 24 * 2 ^ 24 + 0xA0_0780) (n0, n1) _ later) [
                | inl (e, p) ↦
                    let (x, y) = matched w0 0xED08_0040 (w1 % 2 ^ 24) 0x98_0740 e in
                    rw⁻¹ (ap (λ q. q.0) p) (rw⁻¹ (ap (λ q. q.1) p) (high_res x y))
                | inr never ↦ absurd cc
              ]
      ]

unchanged : (s : Core) → Changes s s
unchanged s = record { same_writable = refl; snapping = same; untouched = λ e. refl }

snap-Changes :
    (s : Core) (at : ℕ) (o : Option (ℕ × ℕ))
    → snap_to snaps (read_word s.rdram at) (read_word s.rdram (at + 4)) ≡ o
    → s.writable ≡ true
    → Changes s (snap o at s)
unfolding snap
snap-Changes s at none h w = unchanged s
snap-Changes s at (some (n0, n1)) h w = record {
  same_writable = refl;
  snapping =
      widen at n0 n1 same
        (snap_to-Widens (read_word s.rdram at) (read_word s.rdram (at + 4)) n0 n1 h);
  untouched = λ e. let bad : true ≡ false = sym w ∙ e in absurd cc;
}

-- Memory and what is counted of it stay.
silent :
    (s t : Core) → t.writable ≡ s.writable → t.rdram ≡ s.rdram → t.snapped ≡ s.snapped → Changes s t
silent s t w r n = record { same_writable = w; snapping = rw (r, n) same; untouched = λ e. r }

core_step-Changes :
    (op : Op) (at : ℕ) (s : Core)
    → Changes s (core_step op at (read_word s.rdram at) (read_word s.rdram (at + 4)) s)
unfolding core_step
core_step-Changes set_scissor at s = elim (Bool-cases s.writable) [
  | inl w ↦
      let o = snap_to snaps (read_word s.rdram at) (read_word s.rdram (at + 4)) in
      let snapped : Core = snap o at s in
      let kept : (if s.writable then snapped else s) ≡ snapped =
        ap (λ b. if b then snapped else s) w in
      rw kept (snap-Changes s at o refl w)
  | inr w ↦
      let o = snap_to snaps (read_word s.rdram at) (read_word s.rdram (at + 4)) in
      let snapped : Core = snap o at s in
      let kept : (if s.writable then snapped else s) ≡ s = ap (λ b. if b then snapped else s) w in
      rw kept (unchanged s)
]
core_step-Changes vtx at s = silent s _ refl refl refl
core_step-Changes tri1 at s = silent s _ refl refl refl
core_step-Changes tri2 at s = silent s _ refl refl refl
core_step-Changes quad at s = silent s _ refl refl refl
core_step-Changes mtx at s = silent s _ refl refl refl
core_step-Changes pop_mtx at s = silent s _ refl refl refl
core_step-Changes move_word at s = silent s _ refl refl refl
core_step-Changes move_mem at s = silent s _ refl refl refl
core_step-Changes dl at s = silent s _ refl refl refl
core_step-Changes end_dl at s = silent s _ refl refl refl
core_step-Changes tex_rect at s = silent s _ refl refl refl
core_step-Changes fill_rect at s = silent s _ refl refl refl
core_step-Changes set_fill_color at s = silent s _ refl refl refl
core_step-Changes set_t_img at s = silent s _ refl refl refl
core_step-Changes set_c_img at s = silent s _ refl refl refl
core_step-Changes other at s = silent s _ refl refl refl

Changes-trans : (s t u : Core) → Changes s t → Changes t u → Changes s u
Changes-trans s t u a b = record {
  same_writable = b.same_writable ∙ a.same_writable;
  snapping = Snapping-trans a.snapping b.snapping;
  untouched = λ e. b.untouched (a.same_writable ∙ e) ∙ a.untouched e;
}

module _ {F : Type 0} (fl : Floats F) (texts : Texts F) where
  changes : Closed fl texts (λ s t. Changes s.core t.core)
  unfolding perform counted count_command strayed set_list enter leave
  changes = record {
    here = λ s. unchanged s.core;
    also = λ s t u a b. Changes-trans s.core t.core u.core a b;
    performs = λ op at s. core_step-Changes op at s.core;
    counts = λ s. silent s.core _ refl refl refl;
    strays = λ address s. silent s.core _ refl refl refl;
    enters = λ w1 s. silent s.core _ refl refl refl;
    leaves = λ caller ident s. silent s.core _ refl refl refl;
  }

  -- The memory after a frame's walk is the memory before it, in which as many overscan scissors as the
  -- census counts were widened to the full frame, each where it stood and with its mode, and nothing
  -- else changed; where the fix is off, memory is untouched, whatever the inspector is.
  pub per_frame-Snapping :
      (hud : Bool) (rdram : Rdram) (list_address : ℕ)
      → Snapping rdram 0
          (per_frame fl texts true hud rdram list_address).0
          (frame_census fl texts true hud rdram list_address).core.snapped
        × ((per_frame fl texts false hud rdram list_address).0 ≡ rdram)
  unfolding per_frame frame_census start_core
  per_frame-Snapping hud rdram list_address =
      let start : Bool → Census F = λ snap. record {
        core = start_core rdram snap;
        report = start_report;
        feed = start_feed fl hud;
      } in
      let after : (snap : Bool)
          → Changes (start snap).core (walk fl texts 13 (start snap) list_address).core =
        λ snap.
          walk-R fl texts (λ s t. Changes s.core t.core) changes 13 (start snap) list_address in
      ((after true).snapping, ground (arith, (after false).untouched refl))
