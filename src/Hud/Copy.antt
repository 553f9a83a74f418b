-- ===== src/Hud/Copy.antt =====
-- src/hudrewrite.cpp, `Writer::copy_list`. The class of an element's name is a parameter: the table of
-- src/inspector.cpp has it.
pub mod Grows
pub mod Commands
pub mod Confined
use hybrid_heaven_recomp.Prelude.{
  ℕ, zero, suc, ◌+◌, ◌-◌, ◌*◌, ◌/◌, ◌%◌, ◌^◌, bit_and, bit_or, bit_xor, ℤ, pos, Bool, true, false,
  not, ◌||◌, Option, none, some, List, [], ◌∷◌, ◌==◌, ltb, leb, if◌then◌else◌, update,
}
use hybrid_heaven_recomp.Hud.Memory.{Rdram, read_word, write_commands}
use hybrid_heaven_recomp.Hud.Gbi.{Gbi, Class, auto, is_auto}
use hybrid_heaven_recomp.Hud.Identity.{texture, list, fill}
use hybrid_heaven_recomp.Hud.Writer.{
  Writer, physical, reserve, emit, enable, rect_begin, rect_end, group_begin, group_end,
}

pub data Op : Type 0 where
  mtx move_word move_mem dl end_dl tex_rect fill_rect set_scissor : Op
  set_fill_color set_t_img set_c_img other : Op

-- The constants of F3DEX2; both texture rectangles are handled alike.
unfoldable pub op_of : ℕ → Op
op_of op =
    if op == 0xDF
    then end_dl
    else if op == 0xDE
    then dl
    else if op == 0xDB
    then move_word
    else if op == 0xDC
    then move_mem
    else if op == 0xDA
    then mtx
    else if op == 0xED
    then set_scissor
    else if op == 0xFF
    then set_c_img
    else if op == 0xFD
    then set_t_img
    else if op == 0xF7
    then set_fill_color
    else if op == 0xF6
    then fill_rect
    else if op == 0xE4
    then tex_rect
    else if op == 0xE5
    then tex_rect
    else other

-- `++applied`, for a class other than automatic.
unfoldable pub count : Class → Writer → Writer
count cls s = record s { applied = if is_auto cls then s.applied else s.applied + 1 }

-- The commands that are remembered, which are then emitted as they are.
unfoldable pub remember : Op → ℕ → ℕ → Writer → Writer
remember move_word w0 w1 s =
    if w0 / 2 ^ 16 % 256 == 0x06
    then record s { segments = update s.segments (w0 % 2 ^ 16 / 4 % 16) (w1 % 0x2000_0000) }
    else s
remember move_mem w0 w1 s = if w0 % 256 == 0x08 then record s { viewport = some (w0, w1) } else s
remember mtx w0 w1 s =
    if bit_and (bit_xor (w0 % 256) 0x01) 0x04 == 0
    then s
    else record s { projection = some (w0, w1) }
remember set_scissor w0 w1 s = record s { scissor = some (w0, w1) }
remember set_c_img w0 w1 s = record s { fb_width = if w1 % 2 ^ 24 == 0x0040_0000 then 640 else 320 }
remember set_t_img w0 w1 s = record s {
  image = w1;
  texture_ident = texture s.rdram w1 (physical s.segments w1);
}
remember set_fill_color w0 w1 s = record s { fill_colour = w1 }
remember dl w0 w1 s = s
remember end_dl w0 w1 s = s
remember tex_rect w0 w1 s = s
remember fill_rect w0 w1 s = s
remember other w0 w1 s = s

-- A coordinate in quarters of a pixel, at 320 pixels across: the floats of the code are exact here.
unfoldable pub to_320 : ℕ → ℕ → ℤ
to_320 fb_width quarters = pos (quarters * 320 / (4 * fb_width))

unfoldable pub fill_identity : ℕ → ℕ → Writer → List ℕ
unfolding to_320
fill_identity w0 w1 s =
    fill s.fill_colour (to_320 s.fb_width (w1 / 2 ^ 12 % 0x1000)) (to_320 s.fb_width (w1 % 0x1000))
      (to_320 s.fb_width (w0 / 2 ^ 12 % 0x1000)) (to_320 s.fb_width (w0 % 0x1000))

-- The second half of a texture rectangle, where the next command is one.
unfoldable pub half : ℕ → Writer × ℕ → Writer × ℕ
half op (s, pc) =
    let h0 = read_word s.rdram pc in
    if h0 / 2 ^ 24 % 256 == op then (emit h0 (read_word s.rdram (pc + 4)) s, pc + 8) else (s, pc)

-- How a round of the loop ends: with the state, `pc` and `branch_cls` of the next, or with a result.
pub data Outcome : Type 0 where
  next : Writer → ℕ → Class → Outcome
  done : Writer → ℕ → Outcome

-- The jump over the callee's copy.
unfoldable pub patch : ℕ → Writer → Writer
patch jump_at s = record s {
  rdram =
      write_commands s.rdram (s.base + jump_at)
        ((0xDE * 2 ^ 24 + 2 ^ 16, bit_or 0x8000_0000 (s.base + s.used)) ∷ []);
}

unfoldable pub give_up : Writer → Writer
give_up s = record s { overflow = true }

module _ (gbi : Gbi) (class_of : List ℕ → Class) where
  unfoldable pub copy_fill_rect : ℕ → ℕ → Writer → Writer
  copy_fill_rect w0 w1 s =
      let cls : Class = elim (fill_identity w0 w1 s) [ [] ↦ auto | c ∷ cs ↦ class_of (c ∷ cs) ] in
      count cls (rect_end gbi cls (emit w0 w1 (rect_begin gbi cls s)))

  unfoldable pub copy_tex_rect : ℕ → ℕ → Writer → ℕ → Class → Outcome
  copy_tex_rect w0 w1 s pc branch =
      let cls : Class = class_of s.texture_ident in
      let (s', pc') = half 0xF1 (half 0xE1 (emit w0 w1 (rect_begin gbi cls s), pc)) in
      next (count cls (rect_end gbi cls s')) pc' branch

  -- `if (branch_cls != kAuto) group_end(branch_cls)`, which does nothing for the automatic class.
  unfoldable pub copy_branch : ℕ → Writer → Class → Outcome
  copy_branch w1 s branch =
      let cls = class_of (list s.rdram w1 (physical s.segments w1)) in
      let s' = count cls (group_begin gbi cls (group_end gbi branch s)) in
      next s' (physical s'.segments w1) cls

  -- The call itself, once the callee is in place.
  unfoldable pub copy_call : Class → ℕ → ℕ → Writer → Writer
  copy_call cls w0 callee s =
      count cls (group_end gbi cls (enable gbi (emit w0 callee (group_begin gbi cls s))))

  -- What follows the callee's copy, with its result.
  unfoldable pub copy_called : ℕ → Class → ℕ → Writer × ℕ → ℕ → Class → Outcome
  copy_called jump_at cls w0 (s, copied) pc branch =
      if s.overflow then done s 0 else next (copy_call cls w0 copied (patch jump_at s)) pc branch

  -- The callee is copied where the depth allows it.
  unfoldable pub copy_dl : Option (Writer → ℕ → Writer × ℕ) → ℕ → ℕ → Writer → ℕ → Class → Outcome
  copy_dl callee w0 w1 s pc branch =
      if not (w0 / 2 ^ 16 % 256 == 0) then copy_branch w1 s branch else elim callee [
        | none ↦ next (copy_call auto w0 w1 s) pc branch
        | some copy ↦
            let cls = class_of (list s.rdram w1 (physical s.segments w1)) in
            copy_called s.used cls w0 (copy (emit 0 0 s) w1) pc branch
      ]

  -- One command, with `pc` past it.
  unfoldable pub copy_command :
      Option (Writer → ℕ → Writer × ℕ) → ℕ → Op → ℕ → ℕ → Writer → ℕ → Class → Outcome
  copy_command callee start end_dl w0 w1 s pc branch =
      done (emit w0 w1 (group_end gbi branch s)) (bit_or 0x8000_0000 (s.base + start))
  copy_command callee start dl w0 w1 s pc branch = copy_dl callee w0 w1 s pc branch
  copy_command callee start fill_rect w0 w1 s pc branch = next (copy_fill_rect w0 w1 s) pc branch
  copy_command callee start tex_rect w0 w1 s pc branch = copy_tex_rect w0 w1 s pc branch
  copy_command callee start op w0 w1 s pc branch = next (emit w0 w1 (remember op w0 w1 s)) pc branch

  -- One round; the loop ends early, and then gives up, on an overflow or outside the RDRAM.
  unfoldable pub round : Option (Writer → ℕ → Writer × ℕ) → ℕ → Writer → ℕ → Class → Outcome
  round callee start s pc branch = elim (s.overflow || leb 0x80_0000 pc) [
    | true ↦ done (give_up s) 0
    | false ↦
        let w0 = read_word s.rdram pc in
        let w1 = read_word s.rdram (pc + 4) in
        copy_command callee start (op_of (w0 / 2 ^ 24)) w0 w1 s (pc + 8) branch
  ]

  -- The loop, with the rounds that `guard` leaves.
  unfoldable pub copy_from :
      Option (Writer → ℕ → Writer × ℕ) → ℕ → ℕ → Writer → ℕ → Class → Writer × ℕ
  copy_from callee start zero s pc branch = (give_up s, 0)
  copy_from callee start (suc guard) s pc branch = elim (round callee start s pc branch) [
    | next s' pc' branch' ↦ copy_from callee start guard s' pc' branch'
    | done s' result ↦ (s', result)
  ]

  unfoldable pub copy_body : Option (Writer → ℕ → Writer × ℕ) → Writer → ℕ → Writer × ℕ
  copy_body callee s address =
      let s' = enable gbi s in copy_from callee s.used 40000 s' (physical s'.segments address) auto

  -- With the calls that may still nest: `10 - depth`.
  unfoldable pub copy_list : ℕ → Writer → ℕ → Writer × ℕ
  copy_list zero s address = copy_body none s address
  copy_list (suc left) s address = copy_body (some (copy_list left)) s address
