-- ===== src/Hud/Gbi.antt =====
-- RT64's extended display-list commands, which its header rt64_extended_gbi.h defines: a parameter of
-- the rewriter. Each macro fills one command of two words, or two of them; the rewriter reserves as
-- much. The classes are those of include/hh/inspector.h.
use hybrid_heaven_recomp.Prelude.{ℕ, ℤ, Bool, true, false}

abbrev pub Command : Type 0
Command = ℕ × ℕ

pub record Gbi : Type 0 where
  pub enable : Command
  -- mode, the anchors of the left and right edges, and the four bounds
  pub set_scissor : ℕ → ℕ → ℕ → ℤ → ℤ → ℤ → ℤ → Command × Command
  -- the anchors, and the offsets of the two corners
  pub set_rect_align : ℕ → ℕ → ℤ → ℤ → ℤ → ℤ → Command × Command
  pub set_rect_aspect : ℕ → Command
  -- the group of the automatic matrix, which only its aspect tells apart here
  pub matrix_group : ℕ → Command × Command
  pub set_viewport_align : ℕ → ℤ → ℤ → Command × Command
  pub origin_left : ℕ
  pub origin_right : ℕ
  pub origin_none : ℕ
  pub aspect_stretch : ℕ
  pub aspect_auto : ℕ

pub data Class : Type 0 where
  auto left right stretch spill : Class

unfoldable pub is_auto : Class → Bool
is_auto auto = true
is_auto left = false
is_auto right = false
is_auto stretch = false
is_auto spill = false
