-- ===== src/Hud/Tests.antt =====
-- Names and copies at concrete inputs.
use hybrid_heaven_recomp.Prelude.{
  ℕ, ◌+◌, ◌≡◌, ◌≢◌, ◌<◌, ◌≤◌, ◌⊎◌, refl, bit_or, pos, true, false, List, [], ◌∷◌, arith, ◌==◌,
  if◌then◌else◌,
}
use hybrid_heaven_recomp.Hud.Memory.{Rdram, read_word, write_commands}
use hybrid_heaven_recomp.Hud.Identity.{
  fnv, fnv_basis, fill, hex, hex_digit, decimal, decimal_from, at_most, at_least, texture, list,
  texture_hash, list_hash,
}
use hybrid_heaven_recomp.Hud.Identity.Distinct.{identities-distinct}
use hybrid_heaven_recomp.Hud.Gbi.{Gbi, Class, left, is_auto}
use hybrid_heaven_recomp.Hud.Writer.{
  new_writer, physical, reserve, emit, emit_pair, reissue, enable, widened, widen_scissor,
  restore_scissor, rect_align, rect_begin, rect_end, group_end,
}
use hybrid_heaven_recomp.Hud.Copy.{
  op_of, count, remember, to_320, fill_identity, copy_fill_rect, copy_command, round, copy_from,
  copy_body, copy_list,
}
use hybrid_heaven_recomp.Hud.Rewrite.{Rewriter, scratch, scratch_size, submit, rewrite}
use hybrid_heaven_recomp.Hud.Rewrite.Scratch.{rewrite_lem}

abbrev empty_rdram : Rdram
empty_rdram phys = 0

-- The hash that FNV-1a gives for the bytes of "abcd".
fnv_abcd : fnv fnv_basis 0x6463_6261 ≡ 0xCE34_79BD
unfolding fnv
fnv_abcd = refl

fill_name :
    fill 0xFFFC_FFFC (pos 16) (pos 8) (pos 303) (pos 31)
    ≡ b'f' ∷ b'i' ∷ b'l' ∷ b'l' ∷ b':' ∷ b'0' ∷ b'x' ∷ b'f' ∷ b'f' ∷ b'f' ∷ b'c' ∷ b'f' ∷ b'f'
      ∷ b'f' ∷ b'c' ∷ b'@' ∷ b'1' ∷ b'6' ∷ b',' ∷ b'8' ∷ b',' ∷ b'3' ∷ b'0' ∷ b'3' ∷ b',' ∷ b'3'
      ∷ b'1' ∷ []
unfolding fill hex hex_digit decimal decimal_from at_most at_least
fill_name = refl

abbrev one_address : ℕ
one_address = 0x8010_0000

abbrev other_address : ℕ
other_address = 0x8020_0000

identities-distinct_example :
    let named = fill 0xFF (pos 16) (pos 8) (pos 303) (pos 31) in
    (texture empty_rdram one_address 0x10_0000 ≡ texture empty_rdram other_address 0x20_0000
      → (one_address ≡ other_address)
        × (texture_hash empty_rdram 16 fnv_basis 0x10_0000
            ≡ texture_hash empty_rdram 16 fnv_basis 0x20_0000))
    × (list empty_rdram one_address 0x10_0000 ≡ list empty_rdram other_address 0x20_0000
        → (one_address ≡ other_address)
          × (list_hash empty_rdram 16 fnv_basis 0x10_0000
              ≡ list_hash empty_rdram 16 fnv_basis 0x20_0000))
    × (named ≡ fill 0xFE (pos 16) (pos 8) (pos 303) (pos 31)
        → (named ≡ []) ⊎ (◌≡◌ {A = ℕ} 0xFF 0xFE))
    × (texture empty_rdram one_address 0x10_0000 ≢ list empty_rdram other_address 0x20_0000)
    × (named ≢ texture empty_rdram other_address 0x20_0000)
    × (named ≢ list empty_rdram other_address 0x20_0000)
identities-distinct_example =
    identities-distinct empty_rdram empty_rdram one_address other_address 0x10_0000 0x20_0000 0xFF
      0xFE (pos 16) (pos 8) (pos 303) (pos 31) (pos 16) (pos 8) (pos 303) (pos 31) (omega arith)
      (omega arith) (omega arith) (omega arith)

-- Commands that tell themselves apart by their first word.
abbrev sample_gbi : Gbi
sample_gbi = record {
  enable = (0x6400_0000, 1);
  set_scissor = λ mode l r ulx uly lrx lry. ((0x6400_0001, l), (0, r));
  set_rect_align = λ l r ulx uly lrx lry. ((0x6400_0002, l), (0, r));
  set_rect_aspect = λ aspect. (0x6400_0003, aspect);
  matrix_group = λ aspect. ((0x6400_0004, aspect), (0, 0));
  set_viewport_align = λ origin x y. ((0x6400_0005, origin), (0, 0));
  origin_left = 0;
  origin_right = 0x400;
  origin_none = 0x800;
  aspect_stretch = 1;
  aspect_auto = 0;
}

-- A scissor, a fill rectangle from (16, 8) to (303, 31), and the end.
abbrev sample_rdram : Rdram
sample_rdram phys =
    if phys == 0x1000
    then 0xED00_0000
    else if phys == 0x1004
    then 0x0050_03C0
    else if phys == 0x1008
    then 0xF64B_C07C
    else if phys == 0x100C
    then 0x0004_0020
    else if phys == 0x1010
    then 0xDF00_0000
    else 0

abbrev sample_class : List ℕ → Class
sample_class id = left

abbrev sample_copy : Rewriter × ℕ
sample_copy =
    rewrite sample_gbi sample_class false true (record { turn = true; rdram = sample_rdram })
      0x8000_1000

rewrite_example :
    ((sample_copy.1 ≡ 0) ⊎ (sample_copy.1 ≡ bit_or 0x8000_0000 (scratch sample_copy.0.turn)))
    × ((a : ℕ)
        → (a < scratch sample_copy.0.turn) ⊎ (scratch sample_copy.0.turn + scratch_size ≤ a)
        → sample_copy.0.rdram a ≡ sample_rdram a)
rewrite_example =
    rewrite_lem sample_gbi sample_class false true (record { turn = true; rdram = sample_rdram })
      0x8000_1000

-- The first words of the copy's commands.
abbrev first_words : Rdram → ℕ → List ℕ
first_words rdram at =
    rdram at
    ∷ rdram (at + 8)
    ∷ rdram (at + 16)
    ∷ rdram (at + 32)
    ∷ rdram (at + 48)
    ∷ rdram (at + 56)
    ∷ rdram (at + 72)
    ∷ rdram (at + 80)
    ∷ []

sample_copy_words :
    first_words sample_copy.0.rdram 0x007A_0000
    ≡ 0x6400_0000 ∷ 0xED00_0000 ∷ 0x6400_0001 ∷ 0x6400_0002 ∷ 0xF64B_C07C ∷ 0x6400_0002
      ∷ 0xED00_0000 ∷ 0xDF00_0000 ∷ []
unfolding rewrite submit copy_list copy_body copy_from round op_of read_word write_commands
    copy_command remember count copy_fill_rect fill_identity to_320 fill hex hex_digit decimal
    decimal_from at_most at_least new_writer physical reserve emit emit_pair reissue enable widened
    widen_scissor restore_scissor rect_align rect_begin rect_end group_end is_auto
sample_copy_words = refl
