-- ===== src/Rom/Tests.antt =====
-- The header of the pinned dump, and of others.
use hybrid_heaven_recomp.Prelude.{
  ℕ, ◌≡◌, ◌↔◌, refl, true, false, some, List, [], ◌∷◌, ◌++◌, replicate, slice, bytes_eq,
}
use hybrid_heaven_recomp.Rom.Trim.{is_pad, keep, trim_trailing}
use hybrid_heaven_recomp.Rom.Header.{
  z64, RomHeader, RomFile, header, error, too_small, read_be32, format_of, header_fields,
  parse_header, read_header,
}
use hybrid_heaven_recomp.Rom.Verify.{wrong_region, verify, field_problems, is_z64}
use hybrid_heaven_recomp.Rom.Accept.{IsTarget, verify-IsTarget}

abbrev dump_name : List ℕ
dump_name = b'H' ∷ b'V' ∷ b' ' ∷ 0 ∷ b'!' ∷ b' ' ∷ 0 ∷ b' ' ∷ []

trim_run : trim_trailing dump_name ≡ b'H' ∷ b'V' ∷ b' ' ∷ 0 ∷ b'!' ∷ []
unfolding trim_trailing keep is_pad
trim_run = refl

-- The 64 bytes of the header, with this region and revision 0.
abbrev header_bytes : ℕ → List ℕ
header_bytes region =
    (0x80 ∷ 0x37 ∷ 0x12 ∷ 0x40 ∷ replicate 12 0)
    ++ (0x10 ∷ 0x28 ∷ 0x88 ∷ 0xBF ∷ 0x43 ∷ 0x48 ∷ 0x88 ∷ 0xCA ∷ replicate 8 0)
    ++ (replicate 20 b' ' ++ (replicate 8 0 ++ (b'H' ∷ b'V' ∷ region ∷ 0 ∷ [])))

abbrev dump : ℕ → RomFile
dump region = record {
  file_size = some 0x100_0000;
  content = some (header_bytes region ++ replicate 9 7);
}

abbrev dump_header : ℕ → RomHeader
dump_header region = record {
  format = z64;
  crc1 = 0x1028_88BF;
  crc2 = 0x4348_88CA;
  internal_name = [];
  cartridge_id = b'H' ∷ b'V' ∷ [];
  region = region;
  revision = 0;
  size_bytes = 0x100_0000;
}

read_dump : read_header (dump b'E') ≡ header (dump_header b'E')
unfolding read_header parse_header format_of header_fields read_be32 trim_trailing keep is_pad slice
read_dump = refl

read_short :
    read_header (record { file_size = some 3; content = some (1 ∷ 2 ∷ 3 ∷ []) }) ≡ error too_small
unfolding read_header
read_short = refl

verify_dump : verify (dump_header b'E') ≡ (true, [])
unfolding verify field_problems is_z64 bytes_eq
verify_dump = refl

verify_other : verify (dump_header b'P') ≡ (false, wrong_region b'P' ∷ [])
unfolding verify field_problems is_z64 bytes_eq
verify_other = refl

verify-IsTarget_example :
    (((verify (dump_header b'E')).0 ≡ true) ↔ IsTarget (dump_header b'E'))
    × (((verify (dump_header b'E')).0 ≡ true) ↔ ((verify (dump_header b'E')).1 ≡ []))
verify-IsTarget_example = verify-IsTarget (dump_header b'E')
