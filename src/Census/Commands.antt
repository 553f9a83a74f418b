-- ===== src/Census/Commands.antt =====
-- What one command does to each part of the state: the cases of the `switch` but for the calls, the end
-- of a list and the halves after a texture rectangle.
use hybrid_heaven_recomp.Prelude.{
  Floats, ℕ, zero, suc, ◌+◌, ◌-◌, ◌*◌, ◌/◌, ◌%◌, ◌^◌, bit_and, bit_xor, Bool, not, ◌&&◌, Option,
  none, some, List, [], ◌∷◌, ◌++◌, ◌==◌, ltb, if◌then◌else◌, update, length, replicate,
}
use hybrid_heaven_recomp.Hud.Memory.{Rdram, read_word}
use hybrid_heaven_recomp.Hud.Writer.{physical}
use hybrid_heaven_recomp.Census.State.{
  Op, vtx, tri1, tri2, quad, mtx, pop_mtx, move_word, move_mem, dl, end_dl, tex_rect, set_scissor,
  fill_rect, set_fill_color, set_t_img, set_c_img, other, Texts, Core, RectKind, filled, textured,
  Rect, Report,
}
use hybrid_heaven_recomp.Census.Geometry.{int16, nat, mtx_element}
use hybrid_heaven_recomp.Census.Elements.{intern}

-- An overscan scissor, its words and those of the full frame; the mode bits of `w1` are left out.
pub record Snap : Type 0 where
  pub w0 : ℕ
  pub w1 : ℕ
  pub full_w0 : ℕ
  pub full_w1 : ℕ

abbrev pub scissor_w0 : ℕ → ℕ → ℕ
scissor_w0 ulx uly = 0xED * 2 ^ 24 + ulx * 4 * 2 ^ 12 + uly * 4

abbrev pub scissor_w1 : ℕ → ℕ → ℕ
scissor_w1 lrx lry = lrx * 4 * 2 ^ 12 + lry * 4

abbrev pub snaps : List Snap
snaps =
    record {
      w0 = scissor_w0 16 8;
      w1 = scissor_w1 304 232;
      full_w0 = scissor_w0 0 0;
      full_w1 = scissor_w1 320 240;
    }
    ∷ record {
      w0 = scissor_w0 32 16;
      w1 = scissor_w1 608 464;
      full_w0 = scissor_w0 0 0;
      full_w1 = scissor_w1 640 480;
    }
    ∷ []

-- The loop over the snaps: the words that the first match stores.
unfoldable pub snap_to : List Snap → ℕ → ℕ → Option (ℕ × ℕ)
snap_to [] w0 w1 = none
snap_to (s ∷ ss) w0 w1 =
    let rest = snap_to ss w0 w1 in
    if w0 == s.w0 && w1 % 2 ^ 24 == s.w1
    then some (s.full_w0, w1 / 2 ^ 24 * 2 ^ 24 + s.full_w1)
    else rest

-- A store at an address under the mask.
unfoldable pub write_word : Rdram → ℕ → ℕ → Rdram
write_word rdram phys v = update rdram (phys % 0x80_0000 / 4 * 4) v

unfoldable pub snap : Option (ℕ × ℕ) → ℕ → Core → Core
snap none at s = s
snap (some (n0, n1)) at s = record s {
  rdram = write_word (write_word s.rdram at n0) (at + 4) n1;
  snapped = s.snapped + 1;
}

-- The command stands at the second argument.
unfoldable pub core_step : Op → ℕ → ℕ → ℕ → Core → Core
core_step vtx at w0 w1 s = record s { vtx_loads = s.vtx_loads + 1 }
core_step tri1 at w0 w1 s = record s { tris = s.tris + 1 }
core_step tri2 at w0 w1 s = record s { tris = s.tris + 2 }
core_step quad at w0 w1 s = record s { tris = s.tris + 2 }
core_step mtx at w0 w1 s = record s { matrices = s.matrices + 1 }
core_step move_word at w0 w1 s = record s {
  movewords = if ltb (length s.movewords) 8 then s.movewords ++ (w0, w1) ∷ [] else s.movewords;
  segments =
      if w0 / 2 ^ 16 % 256 == 0x06
      then update s.segments (w0 % 2 ^ 16 / 4 % 16) (w1 % 0x2000_0000)
      else s.segments;
}
core_step set_scissor at w0 w1 s = if s.writable then snap (snap_to snaps w0 w1) at s else s
core_step set_fill_color at w0 w1 s = record s { fill_colour = w1 }
core_step set_t_img at w0 w1 s = record s { image = w1 }
core_step set_c_img at w0 w1 s = record s {
  colour_images = s.colour_images ++ w1 ∷ [];
  hi_res = w1 % 2 ^ 24 == 0x0040_0000;
}
core_step dl at w0 w1 s = record s { calls = s.calls + 1 }
core_step pop_mtx at w0 w1 s = s
core_step move_mem at w0 w1 s = s
core_step end_dl at w0 w1 s = s
core_step tex_rect at w0 w1 s = s
core_step fill_rect at w0 w1 s = s
core_step other at w0 w1 s = s

-- The parameters of G_MTX, which F3DEX2 stores with the push bit inverted.
unfoldable pub mtx_params : ℕ → ℕ
mtx_params w0 = bit_xor (w0 % 256) 0x01

unfoldable pub has_bit : ℕ → ℕ → Bool
has_bit params bit = not (bit_and params bit == 0)

-- `tris_under_projection[i] += n`
unfoldable pub add_at : List ℕ → ℕ → ℕ → List ℕ
add_at [] i n = []
add_at (t ∷ ts) zero n = (t + n) ∷ ts
add_at (t ∷ ts) (suc i) n = t ∷ add_at ts i n

-- `if (size < n) resize(n, 0)`
unfoldable pub resized : List ℕ → ℕ → List ℕ
resized ts n = ts ++ replicate (n - length ts) 0

unfoldable pub count_tris : Option ℕ → ℕ → Report → Report
count_tris none n s = s
count_tris (some i) n s = record s { tris_under_projection = add_at s.tris_under_projection i n }

unfoldable pub keep_projection : List ℕ → Report → Report
keep_projection text s =
    let (projections', i) = intern s.projections text in
    record s {
      projections = projections';
      current_projection = some i;
      tris_under_projection = resized s.tris_under_projection (length projections');
    }

unfoldable pub keep_scissor : List ℕ → Report → Report
keep_scissor text s =
    let (scissors', i) = intern s.scissors text in
    record s { scissors = scissors'; current_scissor = some i }

-- A rectangle from its words, with the corners in quarters of a pixel.
unfoldable pub rect_of : RectKind → ℕ → ℕ → ℕ → Option ℕ → Rect
rect_of kind w0 w1 colour_or_image scissor = record {
  kind = kind;
  ulx = w1 / 2 ^ 12 % 0x1000;
  uly = w1 % 0x1000;
  lrx = w0 / 2 ^ 12 % 0x1000;
  lry = w0 % 0x1000;
  colour_or_image = colour_or_image;
  scissor = scissor;
}

module _ {F : Type 0} (fl : Floats F) (texts : Texts F) where
  unfoldable pub viewport_of : Core → ℕ → List ℕ
  viewport_of core w1 =
      let vp = physical core.segments w1 in
      let s = read_word core.rdram vp in
      let t = read_word core.rdram (vp + 8) in
      texts.viewport_text (int16 (s / 2 ^ 16)) (int16 s) (int16 (t / 2 ^ 16)) (int16 t)

  unfoldable pub projection_of : Core → ℕ → ℕ → List ℕ
  projection_of core w0 w1 =
      let m : ℕ → F = mtx_element fl core.rdram (physical core.segments w1) in
      let load = has_bit (mtx_params w0) 0x02 in
      let scale = fl.neg (m 11) in
      let a = fl.div (m 10) scale in
      let b = fl.div (m 14) scale in
      if fl.eq (m 15) (nat fl 0) && not (fl.eq (m 11) (nat fl 0)) && not (fl.eq (m 0) (nat fl 0))
      then texts.persp_text load (fl.div (m 5) (m 0))
          (fl.div
            (fl.mul (fl.mul (nat fl 2) (fl.atan (fl.div (nat fl 1) (fl.div (m 5) scale))))
              (nat fl 180))
            fl.pi)
          (fl.div b (fl.sub a (nat fl 1))) (fl.div b (fl.add a (nat fl 1)))
      else texts.ortho_text load (m 0) (m 5) (m 12) (m 13)

  -- With the core as it is before the command, and `hud`.
  unfoldable pub report_step : Op → ℕ → ℕ → Core → Bool → Report → Report
  report_step tri1 w0 w1 core hud s = if hud then s else count_tris s.current_projection 1 s
  report_step tri2 w0 w1 core hud s = if hud then s else count_tris s.current_projection 2 s
  report_step quad w0 w1 core hud s = if hud then s else count_tris s.current_projection 2 s
  report_step mtx w0 w1 core hud s =
      if not hud && has_bit (mtx_params w0) 0x04
      then keep_projection (projection_of core w0 w1) s
      else s
  report_step move_mem w0 w1 core hud s =
      if not hud && w0 % 256 == 0x08
      then record s { viewports = (intern s.viewports (viewport_of core w1)).0 }
      else s
  report_step set_scissor w0 w1 core hud s =
      if core.writable
      then s
      else keep_scissor
          (texts.scissor_text (w0 / 2 ^ 12 % 0x1000) (w0 % 0x1000) (w1 / 2 ^ 12 % 0x1000)
            (w1 % 0x1000) (w1 / 2 ^ 24 % 256))
          s
  report_step fill_rect w0 w1 core hud s = if hud then s else record s {
    rects = s.rects ++ rect_of filled w0 w1 core.fill_colour s.current_scissor ∷ [];
  }
  report_step tex_rect w0 w1 core hud s =
      if hud
      then s
      else record s { rects = s.rects ++ rect_of textured w0 w1 core.image s.current_scissor ∷ [] }
  report_step vtx w0 w1 core hud s = s
  report_step pop_mtx w0 w1 core hud s = s
  report_step move_word w0 w1 core hud s = s
  report_step dl w0 w1 core hud s = s
  report_step end_dl w0 w1 core hud s = s
  report_step set_fill_color w0 w1 core hud s = s
  report_step set_t_img w0 w1 core hud s = s
  report_step set_c_img w0 w1 core hud s = s
  report_step other w0 w1 core hud s = s
