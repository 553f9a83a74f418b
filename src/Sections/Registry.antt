-- ===== src/Sections/Registry.antt =====
-- src/sections.cpp, `announce_load` and the two loader hooks. The mutex is held while the table is
-- changed, so a load is one step. The proofs are in the modules below.
pub mod Overlap
pub mod Load
pub mod Consistent
pub mod Runtime
use hybrid_heaven_recomp.Prelude.{
  ℕ, zero, suc, ◌+◌, ◌%◌, ◌^◌, Bool, true, false, not, ◌&&◌, Option, none, some, List, [], ◌∷◌,
  ◌++◌, ◌==◌, ltb, if◌then◌else◌, update,
}
use hybrid_heaven_recomp.Sections.FileTable.{CodeFile}

-- The calls into librecomp's function map.
pub data Call : Type 0 where
  unload : ℕ → Call
  load : ℕ → ℕ → Call

-- `g_loaded_at`, by the index of the file: its address, or 0. Then the calls made, oldest first, and
-- whether `g_rdram` is set.
pub record Registry : Type 0 where
  pub loaded_at : ℕ → ℕ
  pub calls : List Call
  pub rdram_known : Bool

abbrev pub initial : Registry
initial = record { loaded_at = λ i. 0; calls = []; rdram_known = false }

-- `file.vram + file_span(index)`, as a `uint32_t`.
abbrev pub add32 : ℕ → ℕ → ℕ
add32 a b = (a + b) % 2 ^ 32

-- The index of the first file with this id, from index `i` on; `none` is -1.
unfoldable pub index_from : List CodeFile → ℕ → ℕ → Option ℕ
index_from [] i id = none
index_from (f ∷ fs) i id =
    let rest = index_from fs (i + 1) id in if f.id == id then some i else rest

unfoldable pub code_file_index : List CodeFile → ℕ → Option ℕ
unfolding index_from
code_file_index files id = index_from files 0 id

unfoldable pub file_at : List CodeFile → ℕ → Option CodeFile
file_at [] i = none
file_at (f ∷ fs) zero = some f
file_at (f ∷ fs) (suc i) = file_at fs i

-- Whether a loaded file of this size overlaps the range from `lo` to `hi`.
unfoldable pub overlaps : ℕ → ℕ → ℕ → ℕ → Bool
overlaps lo hi olo size = not (olo == 0) && ltb olo hi && ltb lo (add32 olo size)

unfoldable pub evict : ℕ → Registry → Registry
evict i s = record s { loaded_at = update s.loaded_at i 0; calls = s.calls ++ unload i ∷ [] }

-- The loop over the files that are left, from index `i` on.
unfoldable pub evict_from : List CodeFile → ℕ → ℕ → ℕ → Registry → Registry
evict_from [] i lo hi s = s
evict_from (f ∷ fs) i lo hi s =
    evict_from fs (i + 1) lo hi (if overlaps lo hi (s.loaded_at i) f.size then evict i s else s)

unfoldable pub place : ℕ → ℕ → Registry → Registry
place i vram s = record s {
  loaded_at = update s.loaded_at i vram;
  calls = s.calls ++ load i vram ∷ [];
}

-- A destination other than the link address is only logged.
unfoldable pub announce_load : List CodeFile → Registry → ℕ → ℕ → Registry
announce_load files s id dest = elim (code_file_index files id) [
  | none ↦ s
  | some index ↦ elim (file_at files index) [
    | none ↦ s
    | some file ↦ place index file.vram (evict_from files 0 file.vram (add32 file.vram file.size) s)
  ]
]

-- The game's state, and what the recompiled loaders do to it; the streamed one returns `r2` too.
module _ {Game : Type 0} (files : List CodeFile) where
  unfoldable pub file_load_hook : (Game → Game) → Registry × Game → ℕ → ℕ → Registry × Game
  file_load_hook file_load (s, g) r4 r5 = (
    announce_load files (record s { rdram_known = true }) (r4 % 2 ^ 32) (r5 % 2 ^ 32),
    file_load g,
  )

  unfoldable pub file_load_streamed_hook :
      (Game → Game × ℕ) → Registry × Game → ℕ → ℕ → Registry × Game
  file_load_streamed_hook streamed (s, g) r4 r5 =
      let (g', r2) = streamed g in
      (if r2 == 0 then s else announce_load files s (r4 % 2 ^ 32) (r5 % 2 ^ 32), g')
