-- ===== src/Sections/Tests.antt =====
-- Loads of the code files of include/hh/file_table.h.
use hybrid_heaven_recomp.Prelude.{
  Option, ℕ, ◌+◌, ◌%◌, ◌≡◌, ◌≢◌, ◌≤◌, ◌<◌, ◌⊎◌, refl, none, some, List, [], ◌∷◌,
}
use hybrid_heaven_recomp.Sections.FileTable.{CodeFile, code_file, code_files}
use hybrid_heaven_recomp.Sections.Registry.{
  Registry, load, unload, initial, file_at, code_file_index, index_from, announce_load,
  file_load_hook, file_load_streamed_hook, evict_from, overlaps, evict, place,
}
use hybrid_heaven_recomp.Sections.Registry.Load.{IsConsistent, Covers, announce_load_lem}
use hybrid_heaven_recomp.Sections.Registry.Consistent.{
  Load, direct, streamed, Loaders, run, run-Covers,
}
use hybrid_heaven_recomp.Sections.Registry.Consistent.{
  initial-IsConsistent, announce_load-IsConsistent,
}
use hybrid_heaven_recomp.Sections.Registry.Runtime.{Agrees, run-Agrees}
use hybrid_heaven_recomp.Sections.Table.{code_files-IsTable}
use hybrid_heaven_recomp.Sections.Functions.{
  Function, runtime, resident, Environment, registered, env_set, small_memory,
}
use hybrid_heaven_recomp.Sections.Functions.Order.{
  last_of, or_before, resolve_from, resolve-registered,
}

-- File 12 at its link address, which file 13 shares.
abbrev twelve_loaded : Registry
twelve_loaded = announce_load code_files initial 12 0x802408F0

twelve_loaded-IsConsistent : IsConsistent code_files twelve_loaded
twelve_loaded-IsConsistent =
    announce_load-IsConsistent code_files initial 12 0x802408F0 code_files-IsTable
      (initial-IsConsistent code_files)

announce_load_example :
    let s = announce_load code_files twelve_loaded 13 0x802408F0 in
    (s.loaded_at 5 ≡ 0x802408F0)
    × ((j : ℕ) (g : CodeFile)
        → 5 ≢ j
        → file_at code_files j ≡ some g
        → ((g.vram + g.size ≤ 0x802408F0) ⊎ (0x80249B70 ≤ g.vram)
            → s.loaded_at j ≡ twelve_loaded.loaded_at j)
          × (0x802408F0 < g.vram + g.size → g.vram < 0x80249B70 → s.loaded_at j ≡ 0))
unfolding code_file_index index_from file_at code_files
announce_load_example =
    announce_load_lem code_files twelve_loaded 13 0x802408F0 5
      (code_file 13 0x01113260 0x802408F0 0x009280) code_files-IsTable twelve_loaded-IsConsistent
      refl refl

-- The game's state counts its loads; a streamed load completes at every second one.
abbrev counting : Loaders ℕ
counting = record { whole = λ n. n + 1; piece = λ n. (n + 1, n % 2) }

abbrev some_loads : List Load
some_loads =
    direct 12 0x802408F0 ∷ streamed 13 0x802408F0 ∷ streamed 13 0x802408F0 ∷ direct 200 0 ∷ []

run-Covers_example :
    let s = (run code_files counting (initial, 0) some_loads).0 in
    ((i : ℕ) (f : CodeFile)
      → file_at code_files i ≡ some f
      → s.loaded_at i ≢ 0
      → s.loaded_at i ≡ f.vram)
    × ((i j a : ℕ) → Covers code_files s i a → Covers code_files s j a → i ≡ j)
run-Covers_example = run-Covers code_files counting 0 some_loads code_files-IsTable

run-Agrees_example :
    Agrees (run code_files counting (initial, 0) some_loads).0
    × ((s : Registry) (h : ℕ) (r4 r5 : ℕ)
        → (counting.piece h).1 ≡ 0
        → (file_load_streamed_hook code_files counting.piece (s, h) r4 r5).0 ≡ s)
run-Agrees_example = run-Agrees code_files counting 0 some_loads

some_loads_calls :
    (run code_files counting (initial, 0) some_loads).0.calls
    ≡ load 4 0x802408F0 ∷ unload 4 ∷ load 5 0x802408F0 ∷ []
unfolding run file_load_hook file_load_streamed_hook announce_load code_file_index index_from
    file_at evict_from overlaps evict place code_files
some_loads_calls = refl

abbrev no_variables : Environment
no_variables = record {
  no_streamed_loads = none;
  expansion_pak = none;
  debug_loads = none;
  trace_ai = some (b'1' ∷ []);
}

-- The resident image has a function at every address.
abbrev image_functions : ℕ → Option Function
image_functions address = some (resident address)

-- Without HH_DEBUG_LOADS the decompression is the resident image's.
resolve_example :
    resolve_from
      (image_functions 0x80003824)
      (registered ((0x80034f70, runtime 3) ∷ []) no_variables)
      0x80003824
    ≡ some (resident 0x80003824)
unfolding env_set small_memory last_of or_before
resolve_example =
    resolve-registered image_functions ((0x80034f70, runtime 3) ∷ []) no_variables 0x80003824
