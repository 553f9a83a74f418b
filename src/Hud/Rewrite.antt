-- ===== src/Hud/Rewrite.antt =====
-- src/hudrewrite.cpp, `rewrite`: one copy per frame, into the two scratch buffers in turn.
pub mod Scratch
use hybrid_heaven_recomp.Prelude.{ℕ, ◌==◌, Bool, true, false, not, ◌||◌, if◌then◌else◌, List}
use hybrid_heaven_recomp.Hud.Memory.{Rdram}
use hybrid_heaven_recomp.Hud.Gbi.{Gbi, Class}
use hybrid_heaven_recomp.Hud.Writer.{Writer, new_writer}
use hybrid_heaven_recomp.Hud.Copy.{copy_list}

-- `g_turn` is whether the second buffer was last.
abbrev pub scratch : Bool → ℕ
scratch false = 0x007A_0000
scratch true = 0x007C_8000

abbrev pub scratch_size : ℕ
scratch_size = 0x28000

-- The globals that the rewriter changes.
pub record Rewriter : Type 0 where
  pub turn : Bool
  pub rdram : Rdram

-- `off` is HH_NO_HUD_REWRITE, and `any_classes` whether anything has a class.
module _ (gbi : Gbi) (class_of : List ℕ → Class) (off any_classes : Bool) where
  unfoldable pub submit : Writer × ℕ → Bool → Rewriter × ℕ
  submit (w, copy) turn =
      (record { turn = turn; rdram = w.rdram }, if w.overflow || copy == 0 then 0 else copy)

  unfoldable pub rewrite : Rewriter → ℕ → Rewriter × ℕ
  rewrite s list_address =
      if off || not any_classes
      then (s, 0)
      else let turn = not s.turn in
        submit
          (copy_list gbi class_of 10 (new_writer s.rdram (scratch turn) scratch_size) list_address)
          turn
