-- ===== src/Renderer/Submit.antt =====
-- `CensusContext::send_dl`: the census and the rewriter run on each list before the renderer inside, which
-- is the frontend library's. The other calls go through to it.
use hybrid_heaven_recomp.Prelude.{
  ℕ, ℤ, Bool, Option, none, some, List, [], ◌∷◌, ◌==◌, bytes_eq, if◌then◌else◌, Floats,
}
use hybrid_heaven_recomp.Hud.Memory.{Rdram}
use hybrid_heaven_recomp.Hud.Gbi.{Gbi, Class}
use hybrid_heaven_recomp.Hud.Rewrite.{Rewriter, rewrite}
use hybrid_heaven_recomp.Census.State.{Texts, Element, Census}
use hybrid_heaven_recomp.Census.Walk.{per_frame, wanted, run}

-- The settings that a frame is drawn under: HH_FULL_FRAME, the inspector, HH_NO_HUD_REWRITE, whether
-- anything has a class, and HH_DL_CENSUS.
pub record DrawSettings : Type 0 where
  pub full_frame : Bool
  pub inspected : Bool
  pub no_rewrite : Bool
  pub have_classes : Bool
  pub every : ℤ

pub record Submitter : Type 0 where
  pub rewriter : Rewriter
  pub lists : ℕ

-- What one call hands on: the list to the renderer, the elements to the inspector, and what a census
-- prints from.
pub record Sent (F : Type 0) : Type 0 where
  pub data_ptr : ℕ
  pub seen : Option (List (Element F))
  pub printed : Option (Census F)

module _ {F : Type 0} (fl : Floats F) (texts : Texts F) (gbi : Gbi)
    (class_of : List ℕ → Class) where
  unfoldable pub census_if : Bool → Rdram → ℕ → Option (Census F)
  census_if due rdram list_address = if due then some (run fl texts rdram list_address) else none

  -- From the rewriter's result on.
  unfoldable pub hand_over :
      DrawSettings → ℕ → Option (List (Element F)) → ℕ → Rewriter × ℕ → Submitter × Sent F
  hand_over c list_address es g_lists (r, rewritten) =
      let (due, g_lists') = wanted c.every g_lists in
      (
        record { rewriter = r; lists = g_lists' },
        record {
          data_ptr = if rewritten == 0 then list_address else rewritten;
          seen = es;
          printed = census_if due r.rdram list_address;
        },
      )

  unfoldable pub send_dl : DrawSettings → Submitter → ℕ → Submitter × Sent F
  send_dl c s list_address =
      let (rdram', es) =
        per_frame fl texts c.full_frame c.inspected s.rewriter.rdram list_address in
      hand_over c list_address es s.lists (
        rewrite gbi class_of c.no_rewrite c.have_classes (record s.rewriter { rdram = rdram' })
          list_address)

pub data PresentationMode : Type 0 where
  console skip_buffering present_early : PresentationMode

-- HH_PRESENT_MODE
unfoldable pub presentation_mode : Option (List ℕ) → PresentationMode
unfolding bytes_eq
presentation_mode none = present_early
presentation_mode (some value) =
    if bytes_eq value (b'c' ∷ b'o' ∷ b'n' ∷ b's' ∷ b'o' ∷ b'l' ∷ b'e' ∷ [])
    then console
    else if bytes_eq value (b's' ∷ b'k' ∷ b'i' ∷ b'p' ∷ [])
    then skip_buffering
    else present_early
