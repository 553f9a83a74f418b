-- ===== src/Renderer/Submitted.antt =====
-- The census and the rewriter together: what they leave in memory, and what the renderer is given.
use hybrid_heaven_recomp.Prelude.{
  ℕ, ◌+◌, ◌≡◌, ◌≤◌, ◌<◌, ◌⊎◌, inl, inr, refl, bit_or, Bool, true, false, List, ◌==◌, Bool-cases,
  Floats, arith,
}
use hybrid_heaven_recomp.Hud.Memory.{Rdram}
use hybrid_heaven_recomp.Hud.Gbi.{Gbi, Class}
use hybrid_heaven_recomp.Hud.Rewrite.{scratch, scratch_size, Rewriter, rewrite}
use hybrid_heaven_recomp.Hud.Rewrite.Scratch.{rewrite_lem}
use hybrid_heaven_recomp.Census.State.{Texts}
use hybrid_heaven_recomp.Census.Walk.{per_frame, frame_census}
use hybrid_heaven_recomp.Census.Snaps.{Snapping, same, per_frame-Snapping}
use hybrid_heaven_recomp.Renderer.Submit.{DrawSettings, Submitter, hand_over, send_dl}

-- Outside a scratch buffer.
abbrev pub Outside : ℕ → Bool → Type 0
Outside a turn = (a < scratch turn) ⊎ (scratch turn + scratch_size ≤ a)

module _ {F : Type 0} (fl : Floats F) (texts : Texts F) where
  snaps_counted :
      (snap hud : Bool) (rdram : Rdram) (list_address : ℕ)
      → (n : ℕ) × Snapping rdram 0 (per_frame fl texts snap hud rdram list_address).0 n
        × (snap ≡ false → n ≡ 0)
  snaps_counted true hud rdram list_address = (
    (frame_census fl texts true hud rdram list_address).core.snapped,
    (per_frame-Snapping fl texts hud rdram list_address).0,
    λ e. absurd cc,
  )
  snaps_counted false hud rdram list_address =
      (0, rw (per_frame-Snapping fl texts hud rdram list_address).1 same, λ e. refl)

  -- Whatever the list and the classes are: the renderer is given the game's own list or the start of the
  -- scratch buffer whose turn it is, and memory is, outside that buffer, the game's with some overscan
  -- scissors widened where they stood, none where the fix is off.
  pub send_dl-confined :
      (gbi : Gbi) (class_of : List ℕ → Class) (c : DrawSettings) (s : Submitter) (list_address : ℕ)
      → let (s', sent) = send_dl fl texts gbi class_of c s list_address in
        let turn = s'.rewriter.turn in
        (mid : Rdram) × (n : ℕ) × Snapping s.rewriter.rdram 0 mid n
        × (c.full_frame ≡ false → n ≡ 0)
        × ((a : ℕ) → Outside a turn → s'.rewriter.rdram a ≡ mid a)
        × ((sent.data_ptr ≡ list_address) ⊎ (sent.data_ptr ≡ bit_or 0x8000_0000 (scratch turn)))
  unfolding send_dl hand_over
  send_dl-confined gbi class_of c s list_address =
      let mid = (per_frame fl texts c.full_frame c.inspected s.rewriter.rdram list_address).0 in
      let r : Rewriter = record s.rewriter { rdram = mid } in
      let (n, snapping, off) =
        snaps_counted c.full_frame c.inspected s.rewriter.rdram list_address in
      let (s', copy) = rewrite gbi class_of c.no_rewrite c.have_classes r list_address in
      let (result, outside) = rewrite_lem gbi class_of c.no_rewrite c.have_classes r list_address in
      (
        mid,
        n,
        snapping,
        off,
        outside,
        elim (Bool-cases (copy == 0)) [
          | inl e ↦ rw e (inl refl)
          | inr e ↦
              rw e (elim result [ inl z ↦ inl (absurd (ground (arith, e, z))) | inr z ↦ inr z ])
        ],
      )
