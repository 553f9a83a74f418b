-- ===== src/Sections/Registry/Load.antt =====
-- What a load leaves in the table: files at their link addresses, none overlapping another.

use hybrid_heaven_recomp.Prelude.{
  ℕ, suc, ◌+◌, ◌-◌, ◌^◌, ◌≤◌, ◌<◌, ◌≡◌, ◌≢◌, ◌⊎◌, inl, inr, none, some, List, [], ◌∷◌, arith, ◌==◌,
  ==_refl, ne→==_false, if◌then◌else◌, Bool-cases,
}
use hybrid_heaven_recomp.Sections.FileTable.{CodeFile}
use hybrid_heaven_recomp.Sections.Registry.{
  Registry, file_at, index_from, code_file_index, evict_from, place, add32, announce_load,
}
use hybrid_heaven_recomp.Sections.Registry.Overlap.{
  cleared, evict_from_at, cleared_apart, cleared_overlap,
}

-- A table whose files have code, an address other than 0, and an end below 2^32.
pub record IsTable (files : List CodeFile) : Type 0 where
  pub entry :
      (i : ℕ) (f : CodeFile)
      → file_at files i ≡ some f
      → (f.vram ≢ 0) × (0 < f.size) × (f.vram + f.size < 2 ^ 32)

-- File `i` is loaded, and its code covers address `a`.
pub record Covers (files : List CodeFile) (s : Registry) (i a : ℕ) : Type 0 where
  pub file : CodeFile
  pub at : file_at files i ≡ some file
  pub loaded : s.loaded_at i ≢ 0
  pub low : s.loaded_at i ≤ a
  pub high : a < s.loaded_at i + file.size

pub record IsConsistent (files : List CodeFile) (s : Registry) : Type 0 where
  pub linked :
      (i : ℕ) (f : CodeFile) → file_at files i ≡ some f → s.loaded_at i ≢ 0 → s.loaded_at i ≡ f.vram
  pub beyond : (i : ℕ) → file_at files i ≡ none → s.loaded_at i ≡ 0
  pub apart :
      (i j : ℕ) (f g : CodeFile)
      → i ≢ j
      → file_at files i ≡ some f
      → file_at files j ≡ some g
      → s.loaded_at i ≢ 0
      → s.loaded_at j ≢ 0
      → (f.vram + f.size ≤ g.vram) ⊎ (g.vram + g.size ≤ f.vram)

-- The first file with an id is found, at an index that holds it.
pub index_from-file_at :
    (files : List CodeFile) (i id k : ℕ)
    → index_from files i id ≡ some k
    → (f : CodeFile) × (file_at files (k - i) ≡ some f) × (f.id ≡ id) × (i ≤ k)
unfolding index_from file_at
index_from-file_at [] i id k h = cc
index_from-file_at (f ∷ fs) i id k h = elim (Bool-cases (f.id == id)) [
  | inl e ↦
      let here : i ≡ k = ground arith in
      let gap : k - i ≡ 0 = omega arith in (f, rw gap, ground arith, omega arith)
  | inr e ↦
      let there : index_from fs (i + 1) id ≡ some k = ground arith in
      let (g, at, same, le) = index_from-file_at fs (i + 1) id k there in
      let gap : k - i ≡ suc (k - (i + 1)) = omega arith in (g, rw gap at, same, omega arith)
]

-- The table after the loop and the load at index `k`.
pub loaded_at-place :
    (files : List CodeFile) (s : Registry) (k j lo hi vram : ℕ) (g : CodeFile)
    → file_at files j ≡ some g
    → (place k vram (evict_from files 0 lo hi s)).loaded_at j
      ≡ (if k == j then vram else cleared lo hi (s.loaded_at j) g.size)
unfolding place
loaded_at-place files s k j lo hi vram g e =
    ground (arith, evict_from_at files 0 lo hi j j g s e (omega arith))

-- An announced code file: its index, its entry, and the state after the load.
pub announce_load-place :
    (files : List CodeFile) (s : Registry) (id dest k : ℕ) (f : CodeFile)
    → code_file_index files id ≡ some k
    → file_at files k ≡ some f
    → announce_load files s id dest
      ≡ place k f.vram (evict_from files 0 f.vram (add32 f.vram f.size) s)
unfolding announce_load
announce_load-place files s id dest k f e h = ground arith

-- A load of a file whose code lies in the 32-bit address space: the file is then loaded at its link
-- address; of the other files those that overlapped it are not loaded, and the rest are as before.
pub announce_load_lem :
    (files : List CodeFile) (s : Registry) (id dest k : ℕ) (f : CodeFile)
    → IsTable files
    → IsConsistent files s
    → code_file_index files id ≡ some k
    → file_at files k ≡ some f
    → let s' = announce_load files s id dest in
      (s'.loaded_at k ≡ f.vram)
      × ((j : ℕ) (g : CodeFile)
          → k ≢ j
          → file_at files j ≡ some g
          → ((g.vram + g.size ≤ f.vram) ⊎ (f.vram + f.size ≤ g.vram)
              → s'.loaded_at j ≡ s.loaded_at j)
            × (f.vram < g.vram + g.size → g.vram < f.vram + f.size → s'.loaded_at j ≡ 0))
announce_load_lem files s id dest k f t c e h = rw (announce_load-place files s id dest k f e h) (
  ground (arith, loaded_at-place files s k k f.vram (add32 f.vram f.size) f.vram f h, ==_refl k),
  λ j g ne at.
      let here = loaded_at-place files s k j f.vram (add32 f.vram f.size) f.vram g at in
      (
        λ d. ground (
          arith,
          here,
          ne→==_false k j ne,
          cleared_apart f.vram f.size (s.loaded_at j) g.vram g.size (c.linked j g at)
              (t.entry k f h).2 (t.entry j g at).2 d,
        ),
        λ lo hi. ground (
          arith,
          here,
          ne→==_false k j ne,
          cleared_overlap f.vram f.size (s.loaded_at j) g.vram g.size (c.linked j g at)
              (t.entry k f h).2 (t.entry j g at).2 lo hi,
        ),
      ),
)
