-- ===== src/Start/Verified.antt =====
-- The game never starts from a dump that is not the pinned one.
use hybrid_heaven_recomp.Prelude.{
  ℕ, ◌≡◌, inl, inr, refl, sym, ap, ◌∙◌, Bool, true, false, ◌||◌, Option, none, some, List, [], ◌∷◌,
  ◌++◌, ◌==◌, if◌then◌else◌, Bool-cases,
}
use hybrid_heaven_recomp.Rom.Header.{RomHeader, Read, header, error, read_header}
use hybrid_heaven_recomp.Rom.Verify.{verify}
use hybrid_heaven_recomp.Rom.Accept.{IsTarget, verify-IsTarget}
use hybrid_heaven_recomp.Start.Paths.{Path', executable_directory, resolve_input_path}
use hybrid_heaven_recomp.Start.Main.{
  Action, print_usage, print_version, print_header, load_input_script, create_directories,
  register_config_path, set_storage_directory, select_rom, change_directory, register_sections,
  publish_game, register_game, inspector_init, register_content_types, frontend_init, start_game,
  start_sampler, start, stop_sampler, frontend_shutdown, shutdown_platform, Outcome, Host, refusal,
  identify, refused_dump, settle, select, run_selected, run_registered, run_checked, run, Command,
  version, missing_path, usage, identify_dump, run_dump, identify_command, is_option, command_of,
  run_command, main_arguments, enter_directory, main,
}

-- `recomp::start`, which runs the game.
unfoldable pub is_start : Action → Bool
is_start start = true
is_start (create_directories p) = false
is_start (register_config_path p) = false
is_start (set_storage_directory p) = false
is_start (select_rom p) = false
is_start (change_directory p) = false
is_start print_usage = false
is_start print_version = false
is_start print_header = false
is_start load_input_script = false
is_start register_sections = false
is_start publish_game = false
is_start register_game = false
is_start inspector_init = false
is_start register_content_types = false
is_start frontend_init = false
is_start start_game = false
is_start start_sampler = false
is_start stop_sampler = false
is_start frontend_shutdown = false
is_start shutdown_platform = false

unfoldable pub has_start : List Action → Bool
has_start [] = false
has_start (a ∷ as') = is_start a || has_start as'

has_start-enter_directory :
    (path : Path') (actions : List Action)
    → has_start (enter_directory path ++ actions) ≡ has_start actions
unfolding enter_directory has_start is_start
has_start-enter_directory [] actions = refl
has_start-enter_directory (b ∷ bs) actions = refl

-- The checks that a run has passed.
abbrev Passed : Host → Option Path' → Outcome → Type 0
Passed host rom o =
    (refused_dump host rom ≡ none)
    × (host.registers ≡ true)
    × ((select host rom).0 ≡ true)
    × (o.code ≡ 0)

selected-Passed :
    (host : Host) (path : Path') (b : Bool)
    → has_start (run_selected host (some path) (b, select_rom path ∷ [])).actions ≡ true
    → (b ≡ true) × ((run_selected host (some path) (b, select_rom path ∷ [])).code ≡ 0)
unfolding run_selected settle has_start is_start
selected-Passed host path true h = (refl, refl)
selected-Passed host path false h = absurd cc

registered-Passed :
    (host : Host) (rom : Option Path') (b : Bool)
    → has_start (run_registered host rom b).actions ≡ true
    → (b ≡ true) × ((select host rom).0 ≡ true) × ((run_registered host rom b).code ≡ 0)
unfolding run_registered settle has_start is_start select run_selected
registered-Passed host rom false h = absurd cc
registered-Passed host none true h = (refl, refl, refl)
registered-Passed host (some path) true h =
    let (s, c) = selected-Passed host path (host.selects path) h in (refl, s, c)

checked-Passed :
    (host : Host) (rom : Option Path') (o : Option ℕ)
    → has_start (run_checked host rom o).actions ≡ true
    → (o ≡ none)
      × (host.registers ≡ true)
      × ((select host rom).0 ≡ true)
      × ((run_checked host rom o).code ≡ 0)
unfolding run_checked has_start is_start
checked-Passed host rom (some code) h = absurd cc
checked-Passed host rom none h =
    let (r, s, c) = registered-Passed host rom host.registers h in (refl, r, s, c)

run-Passed :
    (host : Host) (rom : Option Path')
    → has_start (run host rom).actions ≡ true
    → Passed host rom (run host rom)
unfolding run
run-Passed host rom h = checked-Passed host rom (refused_dump host rom) h

refusal-IsTarget : (r : Read) → refusal r ≡ none → (h : RomHeader) × (r ≡ header h) × IsTarget h
unfolding refusal
refusal-IsTarget (error e) n = absurd cc
refusal-IsTarget (header h) n = elim (Bool-cases (verify h).0) [
  | inl v ↦ (h, refl, (verify-IsTarget h).0.0 v)
  | inr v ↦
      let refused : Bool → Option ℕ = λ b. if b then none else some 2 in
      let nothing : Option ℕ = none in
      let bad : some 2 ≡ nothing = sym (ap refused v) ∙ n in absurd cc
]

-- From the launcher, without arguments; or with the dump of the first argument, which is the pinned one and
-- which librecomp took.
pub data Launch (host : Host) : List Path' → Type 0 where
  from_launcher : Launch host []
  with_dump :
      (argument : Path') (rest : List Path') (h : RomHeader)
      → read_header (host.files (resolve_input_path host.paths host.original_cwd argument))
        ≡ header h
      → IsTarget h
      → host.selects (resolve_input_path host.paths host.original_cwd argument) ≡ true
      → Launch host (argument ∷ rest)

identify_quiet : (host : Host) (path : Path') → has_start (identify host path).actions ≡ false
unfolding identify has_start is_start
identify_quiet host path = go (refusal (read_header (host.files path)))
  where
    go :
        (o : Option ℕ)
        → has_start
            (elim o as (λ x. Outcome) [
              | none ↦ record { code = 0; actions = print_header ∷ [] }
              | some code ↦ record {
                code = code;
                actions = if code == 1 then [] else print_header ∷ [];
              }
            ]).actions
          ≡ false
    go none = refl
    go (some code) = elim (Bool-cases (code == 1)) [ inl e ↦ rw e refl | inr e ↦ rw e refl ]

command-Passed :
    (host : Host) (c : Command)
    → has_start (run_command host c).actions ≡ true
    → (path : Path') × (c ≡ run_dump path)
      × Passed host
          (some (resolve_input_path host.paths host.original_cwd path))
          (run_command host c)
unfolding run_command has_start is_start
command-Passed host version h = absurd cc
command-Passed host missing_path h = absurd cc
command-Passed host usage h = absurd cc
command-Passed host (identify_dump path) h =
    let quiet = identify_quiet host (resolve_input_path host.paths host.original_cwd path) in
    let bad : false ≡ true = sym quiet ∙ h in absurd cc
command-Passed host (run_dump path) h =
    (path, refl, run-Passed host (some (resolve_input_path host.paths host.original_cwd path)) h)

identify_command_no_dump :
    (rest : List Path') (path : Path') → identify_command rest ≡ run_dump path → ⊥
unfolding identify_command
identify_command_no_dump [] path e = cc
identify_command_no_dump (p ∷ rest) path e = cc

dumped :
    (a b c : Bool) (i : Command) (argument path : Path')
    → (i ≡ run_dump path → ⊥)
    → (if a then version else if b then i else if c then usage else run_dump argument)
      ≡ run_dump path
    → path ≡ argument
dumped true b c i argument path n e = absurd cc
dumped false true c i argument path n e = absurd (n e)
dumped false false true i argument path n e = absurd cc
dumped false false false i argument path n e = cc

run_dump-command_of :
    (argument : List ℕ) (rest : List Path') (path : Path')
    → command_of argument rest ≡ run_dump path
    → path ≡ argument
unfolding command_of
run_dump-command_of argument rest path e =
    dumped _ _ (is_option argument) (identify_command rest) argument path
      (identify_command_no_dump rest path) e

arguments-Launch :
    (host : Host) (arguments : List Path')
    → has_start (main_arguments host arguments).actions ≡ true
    → Launch host arguments × (host.registers ≡ true) × ((main_arguments host arguments).code ≡ 0)
unfolding main_arguments refused_dump select
arguments-Launch host [] h = let (d, r, s, c) = run-Passed host none h in (from_launcher, r, c)
arguments-Launch host (argument ∷ rest) h =
    let (path, e, passed) = command-Passed host (command_of argument rest) h in
    let (d, r, s, c) = passed in
    let same = run_dump-command_of argument rest path e in
    let resolved : Path' → Path' = resolve_input_path host.paths host.original_cwd in
    let (hd, read, target) = refusal-IsTarget (read_header (host.files (resolved path))) d in
    (with_dump argument rest hd (rw⁻¹ same read) target (rw⁻¹ same s), r, c)

-- Whatever the arguments, the files and the answers of librecomp: where `main` gets to `recomp::start`, the
-- game was registered, the exit code is 0, and it was started from the launcher or with a dump whose header
-- is that of the pinned dump in every field and which librecomp took.
pub main-Launch :
    (host : Host) (argv0 : Path') (arguments : List Path')
    → has_start (main host argv0 arguments).actions ≡ true
    → Launch host arguments × (host.registers ≡ true) × ((main host argv0 arguments).code ≡ 0)
unfolding main
main-Launch host argv0 arguments h =
    let o = main_arguments host arguments in
    arguments-Launch host arguments
      (sym (has_start-enter_directory (executable_directory host.paths argv0) o.actions) ∙ h)
