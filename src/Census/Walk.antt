-- ===== src/Census/Walk.antt =====
-- `Census::walk`, `per_frame`, `wanted` and `run`. The walk recurs on the rounds of its own guard, 200,000,
-- and on the depths left, 13 from the top, below which a walk returns at once.
use hybrid_heaven_recomp.Prelude.{
  Floats, ℕ, zero, suc, ◌+◌, ◌/◌, ◌%◌, ◌^◌, ℤ, pos, negsuc, Bool, true, false, not, ◌&&◌, Option,
  none, some, List, [], ◌∷◌, ◌==◌, ltb, leb, if◌then◌else◌, update,
}
use hybrid_heaven_recomp.Hud.Memory.{Rdram, read_word}
use hybrid_heaven_recomp.Hud.Identity.{list}
use hybrid_heaven_recomp.Hud.Writer.{physical}
use hybrid_heaven_recomp.Census.State.{
  Op, op_of, is_stray, dl, end_dl, tex_rect, Texts, Core, Element, M4, Feed, Census, start_core,
  start_report,
}
use hybrid_heaven_recomp.Census.Geometry.{nat}
use hybrid_heaven_recomp.Census.Commands.{core_step, report_step}
use hybrid_heaven_recomp.Census.Feeding.{feed_step}

unfoldable pub strayed : ℕ → Core → Core
strayed address s = record s {
  stray_at = if ltb s.stray 4 then update s.stray_at s.stray address else s.stray_at;
  stray = s.stray + 1;
}

unfoldable pub counted : Core → Core
counted s = record s { commands = s.commands + 1 }

unfoldable pub is_half : ℕ → Core → ℕ → Bool
is_half op s pc = read_word s.rdram pc / 2 ^ 24 % 256 == op

-- Past the halves of a texture rectangle.
unfoldable pub skip_half : ℕ → Core → ℕ → ℕ
skip_half op s pc = if is_half op s pc then pc + 8 else pc

unfoldable pub skip_halves : Core → ℕ → ℕ
skip_halves s pc = skip_half 0xF1 s (skip_half 0xE1 s pc)

unfoldable pub set_list : ℕ → Core → Core
set_list id s = record s { list_id = id }

-- How a round ends: with the state and `pc` of the next, or with the walk.
pub data Outcome (F : Type 0) : Type 0 where
  next : Census F → ℕ → Outcome F
  done : Census F → Outcome F

unfoldable pub count_command : {F : Type 0} → Census F → Census F
count_command s = record s { core = counted s.core }

-- The list with this identity is being walked.
unfoldable pub set_ident : {F : Type 0} → List ℕ → Feed F → Feed F
set_ident ident s = record s { list_ident = ident }

unfoldable pub enter_feed : {F : Type 0} → Core → ℕ → Feed F → Feed F
enter_feed core w1 s =
    if s.hud then set_ident (list core.rdram w1 (physical core.segments w1)) s else s

unfoldable pub enter : {F : Type 0} → ℕ → Census F → Census F
enter w1 s = record s { core = set_list w1 s.core; feed = enter_feed s.core w1 s.feed }

-- Back in the caller's list.
unfoldable pub leave : {F : Type 0} → ℕ → List ℕ → Census F → Census F
leave caller caller_ident s = record s {
  core = set_list caller s.core;
  feed = set_ident caller_ident s.feed;
}

module _ {F : Type 0} (fl : Floats F) where
  unfoldable pub identity : M4 F
  identity i j = if i == j then nat fl 1 else nat fl 0

  -- Of the matrix stack, only its first entry is set to the identity.
  unfoldable pub start_feed : Bool → Feed F
  start_feed hud = record {
    hud = hud;
    elements = [];
    projection = identity;
    modelview = λ d i j. if d == 0 then identity i j else nat fl 0;
    mv_depth = 0;
    vp_scale_x = nat fl 160;
    vp_scale_y = nat fl 120;
    vp_trans_x = nat fl 160;
    vp_trans_y = nat fl 120;
    verts = λ i. record { x = nat fl 0; y = nat fl 0; ok = false };
    list_ident = [];
    texture_ident = [];
  }

module _ {F : Type 0} (fl : Floats F) (texts : Texts F) where
  unfoldable pub perform : Op → ℕ → ℕ → ℕ → Census F → Census F
  perform op at w0 w1 s = record {
    core = core_step op at w0 w1 s.core;
    report = report_step fl texts op w0 w1 s.core s.feed.hud s.report;
    feed = feed_step fl op w0 w1 s.core s.feed;
  }

  unfoldable pub walk_dl : (Census F → ℕ → Census F) → ℕ → ℕ → Census F → ℕ → Outcome F
  walk_dl callee w0 w1 s pc =
      if not (w0 / 2 ^ 16 % 256 == 0)
      then next (enter w1 s) (physical s.core.segments w1)
      else next (leave s.core.list_id s.feed.list_ident (callee (enter w1 s) w1)) pc

  -- The `switch`, for the command at this address.
  unfoldable pub walk_command : (Census F → ℕ → Census F) → Op → ℕ → ℕ → ℕ → Census F → Outcome F
  walk_command callee end_dl at w0 w1 s = done (perform end_dl at w0 w1 s)
  walk_command callee dl at w0 w1 s = walk_dl callee w0 w1 (perform dl at w0 w1 s) (at + 8)
  walk_command callee tex_rect at w0 w1 s =
      next (perform tex_rect at w0 w1 s) (skip_halves s.core (at + 8))
  walk_command callee op at w0 w1 s = next (perform op at w0 w1 s) (at + 8)

  unfoldable pub round : (Census F → ℕ → Census F) → ℕ → Census F → ℕ → Outcome F
  round callee address s pc =
      let w0 = read_word s.core.rdram pc in
      let w1 = read_word s.core.rdram (pc + 4) in
      let op = w0 / 2 ^ 24 in
      if leb 0x80_0000 pc
      then done s
      else if is_stray op
      then done (record s { core = strayed address s.core })
      else walk_command callee (op_of op) pc w0 w1 (count_command s)

  unfoldable pub walk_from : (Census F → ℕ → Census F) → ℕ → ℕ → Census F → ℕ → Census F
  walk_from callee address zero s pc = s
  walk_from callee address (suc guard) s pc = elim (round callee address s pc) [
    | next s' pc' ↦ walk_from callee address guard s' pc'
    | done s' ↦ s'
  ]

  unfoldable pub walk : ℕ → Census F → ℕ → Census F
  walk zero s address = s
  walk (suc left) s address =
      walk_from (walk left) address 200000 s (physical s.core.segments address)

  -- The census that a frame makes: `snap` and `hud` are the two settings.
  unfoldable pub frame_census : Bool → Bool → Rdram → ℕ → Census F
  frame_census snap hud rdram list_address =
      walk 13
        (record { core = start_core rdram snap; report = start_report; feed = start_feed fl hud })
        list_address

  -- The RDRAM, and what the inspector is given, where it is on.
  unfoldable pub per_frame : Bool → Bool → Rdram → ℕ → Rdram × Option (List (Element F))
  per_frame snap hud rdram list_address =
      let c = frame_census snap hud rdram list_address in
      if not snap && not hud
      then (rdram, none)
      else (c.core.rdram, if hud then some c.feed.elements else none)

  -- What `run` prints from. Its first modelview is zero, which it does not read.
  unfoldable pub run : Rdram → ℕ → Census F
  run rdram list_address =
      walk 13
        (record {
          core = start_core rdram false;
          report = start_report;
          feed = record (start_feed fl false) { modelview = λ d i j. nat fl 0 };
        })
        list_address

-- HH_FULL_FRAME: on but for a value that starts with 0.
unfoldable pub overscan_fix_enabled : Option (List ℕ) → Bool
overscan_fix_enabled none = true
overscan_fix_enabled (some []) = true
overscan_fix_enabled (some (c ∷ cs)) = not (c == b'0')

-- The answer and the next `g_lists`; `every` is HH_DL_CENSUS, or 0.
unfoldable pub wanted : ℤ → ℕ → Bool × ℕ
wanted (negsuc n) g_lists = (false, g_lists)
wanted (pos zero) g_lists = (false, g_lists)
wanted (pos (suc n)) g_lists = (g_lists % suc n == 0, (g_lists + 1) % 2 ^ 64)
