-- ===== src/Start/Main.antt =====
-- `identify`, `run` and `main`.
use hybrid_heaven_recomp.Prelude.{
  ℕ, Bool, true, false, ◌||◌, Option, none, some, List, [], ◌∷◌, ◌++◌, ◌==◌, bytes_eq,
  if◌then◌else◌,
}
use hybrid_heaven_recomp.Rom.Header.{RomFile, Read, header, error, read_header}
use hybrid_heaven_recomp.Rom.Verify.{verify}
use hybrid_heaven_recomp.Start.Paths.{
  Path', Paths, settings_directory, executable_directory, resolve_input_path,
}

pub data Action : Type 0 where
  print_usage print_version print_header load_input_script : Action
  create_directories register_config_path set_storage_directory select_rom change_directory :
      Path' → Action
  register_sections publish_game register_game inspector_init register_content_types : Action
  frontend_init start_game start_sampler start stop_sampler frontend_shutdown : Action
  shutdown_platform : Action

-- What `main` returns, and what it has done.
pub record Outcome : Type 0 where
  pub code : ℕ
  pub actions : List Action

-- The working directory that the program was started in, the files, and whether librecomp takes the game
-- and the dump.
pub record Host : Type 0 where
  pub paths : Paths
  pub original_cwd : Path'
  pub files : Path' → RomFile
  pub registers : Bool
  pub selects : Path' → Bool

-- The exit code that a dump's header is refused with.
unfoldable pub refusal : Read → Option ℕ
refusal (error e) = some 1
refusal (header h) = if (verify h).0 then none else some 2

unfoldable pub identify : Host → Path' → Outcome
identify host path = elim (refusal (read_header (host.files path))) [
  | none ↦ record { code = 0; actions = print_header ∷ [] }
  | some code ↦ record { code = code; actions = if code == 1 then [] else print_header ∷ [] }
]

unfoldable pub refused_dump : Host → Option Path' → Option ℕ
refused_dump host none = none
refused_dump host (some path) = refusal (read_header (host.files path))

unfoldable pub settle : Host → List Action
settle host =
    let settings = settings_directory host.paths in
    create_directories settings
    ∷ register_config_path settings
    ∷ set_storage_directory settings
    ∷ register_sections
    ∷ publish_game
    ∷ register_game
    ∷ []

-- With a dump the game is started at once, else from the launcher.
unfoldable pub start_now : Option Path' → List Action
start_now none = []
start_now (some path) = start_game ∷ []

unfoldable pub play : Option Path' → List Action
play rom =
    (inspector_init ∷ register_content_types ∷ frontend_init ∷ [])
    ++ (start_now rom
        ++ start_sampler ∷ start ∷ stop_sampler ∷ frontend_shutdown ∷ shutdown_platform ∷ [])

unfoldable pub select : Host → Option Path' → Bool × List Action
select host none = (true, [])
select host (some path) = (host.selects path, select_rom path ∷ [])

-- From the registration on.
unfoldable pub run_selected : Host → Option Path' → Bool × List Action → Outcome
run_selected host rom (true, done) = record {
  code = 0;
  actions = load_input_script ∷ settle host ++ (done ++ play rom);
}
run_selected host rom (false, done) = record {
  code = 2;
  actions = load_input_script ∷ settle host ++ done;
}

unfoldable pub run_registered : Host → Option Path' → Bool → Outcome
run_registered host rom true = run_selected host rom (select host rom)
run_registered host rom false = record { code = 1; actions = load_input_script ∷ settle host }

unfoldable pub run_checked : Host → Option Path' → Option ℕ → Outcome
run_checked host rom (some code) = record { code = code; actions = load_input_script ∷ [] }
run_checked host rom none = run_registered host rom host.registers

unfoldable pub run : Host → Option Path' → Outcome
run host rom = run_checked host rom (refused_dump host rom)

pub data Command : Type 0 where
  version missing_path usage : Command
  identify_dump run_dump : Path' → Command

-- `--identify` and its path.
unfoldable pub identify_command : List Path' → Command
identify_command [] = missing_path
identify_command (path ∷ rest) = identify_dump path

unfoldable pub is_option : List ℕ → Bool
is_option [] = false
is_option (b ∷ bs) = b == b'-'

abbrev pub version_option : List ℕ
version_option = b'-' ∷ b'-' ∷ b'v' ∷ b'e' ∷ b'r' ∷ b's' ∷ b'i' ∷ b'o' ∷ b'n' ∷ []

abbrev pub identify_option : List ℕ
identify_option = b'-' ∷ b'-' ∷ b'i' ∷ b'd' ∷ b'e' ∷ b'n' ∷ b't' ∷ b'i' ∷ b'f' ∷ b'y' ∷ []

unfoldable pub command_of : List ℕ → List Path' → Command
command_of argument rest =
    if bytes_eq argument version_option || bytes_eq argument (b'-' ∷ b'v' ∷ [])
    then version
    else if bytes_eq argument identify_option
    then identify_command rest
    else if is_option argument
    then usage
    else run_dump argument

unfoldable pub run_command : Host → Command → Outcome
run_command host version = record { code = 0; actions = print_version ∷ [] }
run_command host missing_path = record { code = 1; actions = [] }
run_command host usage = record { code = 1; actions = print_usage ∷ [] }
run_command host (identify_dump path) =
    identify host (resolve_input_path host.paths host.original_cwd path)
run_command host (run_dump path) =
    run host (some (resolve_input_path host.paths host.original_cwd path))

-- After `argv[0]`.
unfoldable pub main_arguments : Host → List Path' → Outcome
main_arguments host [] = run host none
main_arguments host (argument ∷ rest) = run_command host (command_of argument rest)

-- The change to the executable's directory, where it is known.
unfoldable pub enter_directory : Path' → List Action
enter_directory [] = []
enter_directory (b ∷ bs) = change_directory (b ∷ bs) ∷ []

-- The files are seen as they are from the executable's directory on; a relative dump is resolved before.
unfoldable pub main : Host → Path' → List Path' → Outcome
main host argv0 arguments =
    let o = main_arguments host arguments in
    record o { actions = enter_directory (executable_directory host.paths argv0) ++ o.actions }
