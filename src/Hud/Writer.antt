-- ===== src/Hud/Writer.antt =====
-- src/hudrewrite.cpp, `Writer` without `copy_list`: the state of a copy, and what it emits around a
-- classified element.
pub mod Grows
use hybrid_heaven_recomp.Prelude.{
  ℕ, zero, suc, ◌+◌, ◌-◌, ◌*◌, ◌/◌, ◌%◌, ◌^◌, ℤ, pos, negsuc, Bool, true, false, Option, none, some,
  List, [], ◌∷◌, ltb, leb, if◌then◌else◌, length,
}
use hybrid_heaven_recomp.Hud.Memory.{Rdram, write_commands}
use hybrid_heaven_recomp.Hud.Gbi.{Gbi, Command, Class, auto, left, right, stretch, spill}

-- A saved command is `none` while its `have_` flag is false. `texture_ident` is a name of Identity.
pub record Writer : Type 0 where
  pub rdram : Rdram
  pub base : ℕ
  pub size : ℕ
  pub used : ℕ
  pub overflow : Bool
  pub segments : ℕ → ℕ
  pub fb_width : ℕ
  pub viewport : Option Command
  pub scissor : Option Command
  pub projection : Option Command
  pub image : ℕ
  pub fill_colour : ℕ
  pub texture_ident : List ℕ
  pub applied : ℕ

unfoldable pub new_writer : Rdram → ℕ → ℕ → Writer
new_writer rdram base size = record {
  rdram = rdram;
  base = base;
  size = size;
  used = 0;
  overflow = false;
  segments = λ i. 0;
  fb_width = 320;
  viewport = none;
  scissor = none;
  projection = none;
  image = 0;
  fill_colour = 0;
  texture_ident = [];
  applied = 0;
}

unfoldable pub physical : (ℕ → ℕ) → ℕ → ℕ
physical segments address =
    if leb 0x80 (address / 2 ^ 24)
    then address % 0x2000_0000
    else (segments (address / 2 ^ 24 % 16) + address % 2 ^ 24) % 2 ^ 32 % 0x2000_0000

-- `reserve` for these commands, and the stores into what it returns.
unfoldable pub reserve : List Command → Writer → Writer
reserve cs s =
    if ltb s.size ((s.used + 8 * length cs) % 2 ^ 32)
    then record s { overflow = true }
    else record s {
      rdram = write_commands s.rdram (s.base + s.used) cs;
      used = (s.used + 8 * length cs) % 2 ^ 32;
    }

unfoldable pub emit : ℕ → ℕ → Writer → Writer
emit w0 w1 s = reserve ((w0, w1) ∷ []) s

unfoldable pub emit_pair : Command × Command → Writer → Writer
emit_pair (c, d) s = reserve (c ∷ d ∷ []) s

-- `if (have_scissor) emit(...)`, likewise for the viewport and the projection.
unfoldable pub reissue : Option Command → Writer → Writer
reissue none s = s
reissue (some (w0, w1)) s = emit w0 w1 s

abbrev pub negate : ℕ → ℤ
negate zero = pos 0
negate (suc n) = negsuc n

-- `static_cast<int>(a) - static_cast<int>(b)`
abbrev pub difference : ℕ → ℕ → ℤ
difference a b = if leb b a then pos (a - b) else negate (b - a)

module _ (gbi : Gbi) where
  unfoldable pub enable : Writer → Writer
  enable s = reserve (gbi.enable ∷ []) s

  unfoldable pub origin_cancel : ℕ → Writer → ℤ
  origin_cancel origin s = negate (origin * s.fb_width * 4 % 2 ^ 32 / gbi.origin_right)

  unfoldable pub widened : ℕ → Command → Command × Command
  widened fb_width (w0, w1) =
      gbi.set_scissor (w1 / 2 ^ 24 % 4) gbi.origin_left gbi.origin_right
        (pos (w0 / 2 ^ 12 % 0x1000 / 4)) (pos (w0 % 0x1000 / 4))
        (difference (w1 / 2 ^ 12 % 0x1000 / 4) fb_width) (pos (w1 % 0x1000 / 4))

  unfoldable pub widen_scissor : Writer → Writer
  widen_scissor s = elim s.scissor [ none ↦ s | some c ↦ emit_pair (widened s.fb_width c) s ]

  unfoldable pub restore_scissor : Writer → Writer
  restore_scissor s = reissue s.scissor s

  unfoldable pub projection_group : ℕ → Writer → Writer
  projection_group aspect s = reissue s.projection (emit_pair (gbi.matrix_group aspect) s)

  unfoldable pub viewport_align : ℕ → ℤ → Writer → Writer
  viewport_align origin offset s =
      reissue s.viewport (emit_pair (gbi.set_viewport_align origin offset (pos 0)) s)

  -- `gEXSetRectAlign` with one anchor for both corners, and a horizontal offset.
  unfoldable pub rect_align : ℕ → ℤ → Writer → Writer
  rect_align origin off s = emit_pair (gbi.set_rect_align origin origin off (pos 0) off (pos 0)) s

  unfoldable pub rect_begin : Class → Writer → Writer
  rect_begin auto s = s
  rect_begin left s = rect_align gbi.origin_left (pos 0) (widen_scissor s)
  rect_begin right s =
      rect_align gbi.origin_right (origin_cancel gbi.origin_right s) (widen_scissor s)
  rect_begin stretch s = reserve (gbi.set_rect_aspect gbi.aspect_stretch ∷ []) s
  rect_begin spill s = widen_scissor s

  unfoldable pub rect_end : Class → Writer → Writer
  rect_end auto s = s
  rect_end left s = restore_scissor (rect_align gbi.origin_none (pos 0) s)
  rect_end right s = restore_scissor (rect_align gbi.origin_none (pos 0) s)
  rect_end stretch s = reserve (gbi.set_rect_aspect gbi.aspect_auto ∷ []) s
  rect_end spill s = restore_scissor s

  unfoldable pub group_begin : Class → Writer → Writer
  group_begin auto s = s
  group_begin left s =
      viewport_align gbi.origin_left (origin_cancel gbi.origin_left s) (widen_scissor s)
  group_begin right s =
      viewport_align gbi.origin_right (origin_cancel gbi.origin_right s) (widen_scissor s)
  group_begin stretch s = projection_group gbi.aspect_stretch s
  group_begin spill s = widen_scissor s

  unfoldable pub group_end : Class → Writer → Writer
  group_end auto s = s
  group_end left s = restore_scissor (viewport_align gbi.origin_none (pos 0) s)
  group_end right s = restore_scissor (viewport_align gbi.origin_none (pos 0) s)
  group_end stretch s = projection_group gbi.aspect_auto s
  group_end spill s = restore_scissor s
