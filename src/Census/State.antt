-- ===== src/Census/State.antt =====
-- The commands that the census looks at, and its state in three parts: what every walk does, what a
-- census prints, and the inspector's feed.
use hybrid_heaven_recomp.Prelude.{
  ℕ, ℤ, Bool, false, ◌&&◌, Option, none, List, [], ◌==◌, ltb, if◌then◌else◌,
}
use hybrid_heaven_recomp.Hud.Memory.{Rdram}

pub data Op : Type 0 where
  vtx tri1 tri2 quad mtx pop_mtx move_word move_mem dl end_dl tex_rect : Op
  set_scissor fill_rect set_fill_color set_t_img set_c_img other : Op

-- The constants of F3DEX2; both texture rectangles are handled alike.
unfoldable pub op_of : ℕ → Op
op_of op =
    if op == 0x01
    then vtx
    else if op == 0x05
    then tri1
    else if op == 0x06
    then tri2
    else if op == 0x07
    then quad
    else if op == 0xDA
    then mtx
    else if op == 0xDB
    then move_word
    else if op == 0xDC
    then move_mem
    else if op == 0xDE
    then dl
    else if op == 0xDF
    then end_dl
    else if op == 0xE4
    then tex_rect
    else if op == 0xE5
    then tex_rect
    else if op == 0xED
    then set_scissor
    else if op == 0xF6
    then fill_rect
    else if op == 0xF7
    then set_fill_color
    else if op == 0xFD
    then set_t_img
    else if op == 0xFF
    then set_c_img
    else if op == 0xD8
    then pop_mtx
    else other

-- Between G_QUAD and G_SPECIAL_3 there is no command.
unfoldable pub is_stray : ℕ → Bool
is_stray op = ltb 0x07 op && ltb op 0xD3

-- What `snprintf` makes of a viewport's scale and translation, of a scissor's corners and mode, and of a
-- projection, which is loaded or multiplied.
pub record Texts (F : Type 0) : Type 0 where
  pub viewport_text : ℤ → ℤ → ℤ → ℤ → List ℕ
  pub scissor_text : ℕ → ℕ → ℕ → ℕ → ℕ → List ℕ
  pub persp_text : Bool → F → F → F → F → List ℕ
  pub ortho_text : Bool → F → F → F → F → List ℕ

pub record Core : Type 0 where
  pub rdram : Rdram
  pub writable : Bool
  pub snapped : ℕ
  pub segments : ℕ → ℕ
  pub tris : ℕ
  pub vtx_loads : ℕ
  pub calls : ℕ
  pub commands : ℕ
  pub matrices : ℕ
  pub stray : ℕ
  pub stray_at : ℕ → ℕ
  pub movewords : List (ℕ × ℕ)
  pub fill_colour : ℕ
  pub image : ℕ
  pub colour_images : List ℕ
  -- whether the colour image is the hi-res buffer, for which `to_320` is a half
  pub hi_res : Bool
  pub list_id : ℕ

-- `kind`, the corners in quarters of a pixel, and the index into `scissors`, none for -1.
pub data RectKind : Type 0 where
  filled textured : RectKind

pub record Rect : Type 0 where
  pub kind : RectKind
  pub ulx : ℕ
  pub uly : ℕ
  pub lrx : ℕ
  pub lry : ℕ
  pub colour_or_image : ℕ
  pub scissor : Option ℕ

-- An index of -1 is `none`.
pub record Report : Type 0 where
  pub viewports : List (List ℕ)
  pub scissors : List (List ℕ)
  pub projections : List (List ℕ)
  pub tris_under_projection : List ℕ
  pub current_projection : Option ℕ
  pub current_scissor : Option ℕ
  pub rects : List Rect

pub record Element (F : Type 0) : Type 0 where
  pub identity : List ℕ
  pub second : List ℕ
  pub x0 : F
  pub x1 : F
  pub y0 : F
  pub y1 : F
  pub rect : Bool

pub record Screen (F : Type 0) : Type 0 where
  pub x : F
  pub y : F
  pub ok : Bool

-- By row and column.
abbrev pub M4 : Type 0 → Type 0
M4 F = ℕ → ℕ → F

-- `hud`, and the transform state of the RSP.
pub record Feed (F : Type 0) : Type 0 where
  pub hud : Bool
  pub elements : List (Element F)
  pub projection : M4 F
  pub modelview : ℕ → M4 F
  pub mv_depth : ℕ
  pub vp_scale_x : F
  pub vp_scale_y : F
  pub vp_trans_x : F
  pub vp_trans_y : F
  pub verts : ℕ → Screen F
  pub list_ident : List ℕ
  pub texture_ident : List ℕ

pub record Census (F : Type 0) : Type 0 where
  pub core : Core
  pub report : Report
  pub feed : Feed F

unfoldable pub start_core : Rdram → Bool → Core
start_core rdram writable = record {
  rdram = rdram;
  writable = writable;
  snapped = 0;
  segments = λ i. 0;
  tris = 0;
  vtx_loads = 0;
  calls = 0;
  commands = 0;
  matrices = 0;
  stray = 0;
  stray_at = λ i. 0;
  movewords = [];
  fill_colour = 0;
  image = 0;
  colour_images = [];
  hi_res = false;
  list_id = 0;
}

unfoldable pub start_report : Report
start_report = record {
  viewports = [];
  scissors = [];
  projections = [];
  tris_under_projection = [];
  current_projection = none;
  current_scissor = none;
  rects = [];
}
