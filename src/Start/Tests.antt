-- ===== src/Start/Tests.antt =====
-- The command line with the pinned dump, with another and without.
use hybrid_heaven_recomp.Prelude.{
  ℕ, ◌≡◌, refl, true, false, not, none, some, [], ◌∷◌, ◌++◌, ◌==◌, bytes_eq, if◌then◌else◌,
  replicate, slice,
}
use hybrid_heaven_recomp.Rom.Trim.{trim_trailing, keep, is_pad}
use hybrid_heaven_recomp.Rom.Header.{
  RomFile, read_header, parse_header, format_of, header_fields, read_be32,
}
use hybrid_heaven_recomp.Rom.Verify.{verify, field_problems, is_z64}
use hybrid_heaven_recomp.Start.Paths.{
  Path', Paths, other_system, settings_directory, settings_root, xdg_root, under, below,
  executable_directory, parent_of, resolve_input_path,
}
use hybrid_heaven_recomp.Start.Main.{
  Host, refusal, refused_dump, settle, start_now, play, select, run_selected, run_registered,
  run_checked, run, identify_command, is_option, command_of, run_command, main_arguments,
  enter_directory, main,
}
use hybrid_heaven_recomp.Start.Verified.{has_start, is_start, Launch, main-Launch}

abbrev european_or_us : ℕ → RomFile
european_or_us region = record {
  file_size = some 0x100_0000;
  content = some (
      (0x80 ∷ 0x37 ∷ 0x12 ∷ 0x40 ∷ replicate 12 0)
      ++ (0x10 ∷ 0x28 ∷ 0x88 ∷ 0xBF ∷ 0x43 ∷ 0x48 ∷ 0x88 ∷ 0xCA ∷ replicate 8 0)
      ++ (replicate 20 b' ' ++ (replicate 8 0 ++ (b'H' ∷ b'V' ∷ region ∷ 0 ∷ []))));
}

abbrev linux : Paths
linux = record {
  system = other_system;
  join = λ a b. a ++ b'/' ∷ b;
  parent_path = λ p. b'/' ∷ [];
  is_relative = λ p. elim p [ [] ↦ true | c ∷ cs ↦ not (c == b'/') ];
  current_path = b'/' ∷ b'b' ∷ [];
  portable = false;
  local_app_data = none;
  home = some (b'/' ∷ b'h' ∷ []);
  xdg_data_home = some [];
  self = some (b'/' ∷ b'x' ∷ []);
  absolute = λ p. none;
}

abbrev us_dump : Path'
us_dump = b'u' ∷ []

-- The file u in the directory /w is the pinned dump, and any other is the European one.
abbrev host : Host
host = record {
  paths = linux;
  original_cwd = b'/' ∷ b'w' ∷ [];
  files = λ p.
      if bytes_eq p (b'/' ∷ b'w' ∷ b'/' ∷ us_dump)
      then european_or_us b'E'
      else european_or_us b'P';
  registers = true;
  selects = λ p. true;
}

-- /h/.local/share/hybrid-heaven-recomp, without XDG_DATA_HOME.
settings_length :
    slice 0 15 (settings_directory linux)
    ≡ b'/' ∷ b'h' ∷ b'/' ∷ b'.' ∷ b'l' ∷ b'o' ∷ b'c' ∷ b'a' ∷ b'l' ∷ b'/' ∷ b's' ∷ b'h' ∷ b'a'
      ∷ b'r' ∷ b'e' ∷ []
unfolding settings_directory settings_root xdg_root under below slice
settings_length = refl

other_dump_refused : (main host (b'x' ∷ []) ((b'p' ∷ []) ∷ [])).code ≡ 2
unfolding main main_arguments command_of run_command run run_checked refused_dump refusal bytes_eq
    identify_command is_option resolve_input_path read_header parse_header format_of header_fields
    read_be32 verify field_problems is_z64 trim_trailing keep is_pad slice
other_dump_refused = refl

us_dump_starts : has_start (main host (b'x' ∷ []) (us_dump ∷ [])).actions ≡ true
unfolding main main_arguments command_of run_command run run_checked run_registered run_selected
    select refused_dump refusal bytes_eq identify_command is_option resolve_input_path read_header
    parse_header format_of header_fields read_be32 verify field_problems is_z64 trim_trailing keep
    is_pad slice enter_directory executable_directory parent_of settle start_now play has_start
    is_start
us_dump_starts = refl

main-Launch_example :
    Launch host (us_dump ∷ [])
    × (host.registers ≡ true)
    × ((main host (b'x' ∷ []) (us_dump ∷ [])).code ≡ 0)
main-Launch_example = main-Launch host (b'x' ∷ []) (us_dump ∷ []) us_dump_starts
