-- ===== src/Census/Feeding.antt =====
-- What one command does to the inspector's feed.
use hybrid_heaven_recomp.Prelude.{
  Floats, ℕ, zero, suc, ◌+◌, ◌-◌, ◌*◌, ◌/◌, ◌%◌, ◌^◌, pos, Bool, true, List, [], ◌∷◌, ◌==◌, ltb,
  if◌then◌else◌, update,
}
use hybrid_heaven_recomp.Hud.Memory.{read_word}
use hybrid_heaven_recomp.Hud.Identity.{texture, fill}
use hybrid_heaven_recomp.Hud.Writer.{physical}
use hybrid_heaven_recomp.Census.State.{
  Op, vtx, tri1, tri2, quad, mtx, pop_mtx, move_word, move_mem, dl, end_dl, tex_rect, set_scissor,
  fill_rect, set_fill_color, set_t_img, set_c_img, other, Core, Element, M4, Feed,
}
use hybrid_heaven_recomp.Census.Geometry.{int16, nat, read_matrix, multiply, place}
use hybrid_heaven_recomp.Census.Elements.{note, note_triangle}
use hybrid_heaven_recomp.Census.Commands.{mtx_params, has_bit}

-- A coordinate of a rectangle times `to_320`, in eighths of a pixel: exact.
unfoldable pub eighths : Bool → ℕ → ℕ
eighths hi_res quarters = if hi_res then quarters else 2 * quarters

unfoldable pub fill_ident : Core → ℕ → ℕ → List ℕ
fill_ident core w0 w1 =
    fill core.fill_colour (pos (eighths core.hi_res (w1 / 2 ^ 12 % 0x1000) / 8))
      (pos (eighths core.hi_res (w1 % 0x1000) / 8))
      (pos (eighths core.hi_res (w0 / 2 ^ 12 % 0x1000) / 8))
      (pos (eighths core.hi_res (w0 % 0x1000) / 8))

module _ {F : Type 0} (fl : Floats F) where
  -- A rectangle as an element; a fill's lower right corner lies a pixel further.
  unfoldable pub rect_element : Core → List ℕ → ℕ → ℕ → ℕ → Element F
  rect_element core identity further w0 w1 =
      let at : ℕ → F = λ quarters. fl.div (nat fl (eighths core.hi_res quarters)) (nat fl 8) in
      record {
        identity = identity;
        second = [];
        x0 = at (w1 / 2 ^ 12 % 0x1000);
        x1 = at (w0 / 2 ^ 12 % 0x1000 + further);
        y0 = at (w1 % 0x1000);
        y1 = at (w0 % 0x1000 + further);
        rect = true;
      }

  unfoldable pub note_fill : List ℕ → Core → ℕ → ℕ → Feed F → Feed F
  note_fill [] core w0 w1 s = s
  note_fill (c ∷ cs) core w0 w1 s = note fl (rect_element core (c ∷ cs) 4 w0 w1) s

  -- The vertices from an index and an address on, with the rounds left.
  unfoldable pub load_verts : Core → ℕ → ℕ → ℕ → Feed F → Feed F
  load_verts core zero i at s = s
  load_verts core (suc rounds) i at s =
      let xy = read_word core.rdram at in
      let zf = read_word core.rdram (at + 4) in
      let v = place fl core.hi_res s (int16 (xy / 2 ^ 16)) (int16 xy) (int16 (zf / 2 ^ 16)) in
      let rest =
        load_verts core rounds (i + 1) (at + 16) (record s { verts = update s.verts i v }) in
      if ltb i 64 then rest else s

  -- gSPVertex has the count in bits 12 to 19, and twice the index past the last in the low byte.
  unfoldable pub load_vtx : Core → ℕ → ℕ → Feed F → Feed F
  load_vtx core w0 w1 s =
      let count = w0 / 2 ^ 12 % 256 in
      let past = w0 % 256 / 2 in
      let loaded = load_verts core count (past - count) (physical core.segments w1) s in
      if ltb past count then s else loaded

  unfoldable pub load_projection : Bool → M4 F → Feed F → Feed F
  load_projection load m s = record s {
    projection = if load then m else multiply fl m s.projection;
  }

  unfoldable pub push_mtx : Feed F → Feed F
  push_mtx s =
      if ltb s.mv_depth 17
      then record s {
        modelview = update s.modelview (s.mv_depth + 1) (s.modelview s.mv_depth);
        mv_depth = s.mv_depth + 1;
      }
      else s

  unfoldable pub load_modelview : Bool → M4 F → Feed F → Feed F
  load_modelview load m s = record s {
    modelview =
        update s.modelview s.mv_depth (if load then m else multiply fl m (s.modelview s.mv_depth));
  }

  unfoldable pub load_mtx : ℕ → M4 F → Feed F → Feed F
  load_mtx params m s =
      let load = has_bit params 0x02 in
      if has_bit params 0x04
      then load_projection load m s
      else load_modelview load m (if has_bit params 0x01 then push_mtx s else s)

  unfoldable pub load_viewport : Core → ℕ → Feed F → Feed F
  load_viewport core w1 f =
      let vp = physical core.segments w1 in
      let s = read_word core.rdram vp in
      let t = read_word core.rdram (vp + 8) in
      record f {
        vp_scale_x = fl.div (fl.int (int16 (s / 2 ^ 16))) (nat fl 4);
        vp_scale_y = fl.div (fl.int (int16 s)) (nat fl 4);
        vp_trans_x = fl.div (fl.int (int16 (t / 2 ^ 16))) (nat fl 4);
        vp_trans_y = fl.div (fl.int (int16 t)) (nat fl 4);
      }

  -- The three indices of a triangle, doubled in a word.
  unfoldable pub note_indices : Core → ℕ → Feed F → Feed F
  note_indices core w s =
      note_triangle fl core (w / 2 ^ 16 % 256 / 2) (w / 2 ^ 8 % 256 / 2) (w % 256 / 2) s

  -- With the core as it is before the command.
  unfoldable pub feed_step : Op → ℕ → ℕ → Core → Feed F → Feed F
  feed_step vtx w0 w1 core s = if s.hud then load_vtx core w0 w1 s else s
  feed_step tri1 w0 w1 core s = note_indices core w0 s
  feed_step tri2 w0 w1 core s = note_indices core w1 (note_indices core w0 s)
  feed_step quad w0 w1 core s = note_indices core w1 (note_indices core w0 s)
  feed_step mtx w0 w1 core s =
      if s.hud
      then load_mtx (mtx_params w0) (read_matrix fl core.rdram (physical core.segments w1)) s
      else s
  feed_step pop_mtx w0 w1 core s = record s { mv_depth = s.mv_depth - w1 / 64 }
  feed_step move_mem w0 w1 core s = if w0 % 256 == 0x08 then load_viewport core w1 s else s
  feed_step set_t_img w0 w1 core s =
      if s.hud
      then record s { texture_ident = texture core.rdram w1 (physical core.segments w1) }
      else s
  feed_step fill_rect w0 w1 core s =
      if s.hud then note_fill (fill_ident core w0 w1) core w0 w1 s else s
  feed_step tex_rect w0 w1 core s =
      if s.hud then note fl (rect_element core s.texture_ident 0 w0 w1) s else s
  feed_step move_word w0 w1 core s = s
  feed_step dl w0 w1 core s = s
  feed_step end_dl w0 w1 core s = s
  feed_step set_scissor w0 w1 core s = s
  feed_step set_fill_color w0 w1 core s = s
  feed_step set_c_img w0 w1 core s = s
  feed_step other w0 w1 core s = s
