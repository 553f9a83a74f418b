-- ===== src/Sections/Registry/Overlap.antt =====
-- The eviction loop of `announce_load`: which entries it clears.
use native.Mathlib.Decide.{ℕ_discrete}
use hybrid_heaven_recomp.Prelude.{
  ℕ, zero, suc, ◌+◌, ◌^◌, ◌≤◌, ◌<◌, ◌≡◌, ◌≢◌, refl, ◌⊎◌, ap, ◌∙◌, none, some, List, [], ◌∷◌, arith,
  ==_refl, ne→==_false, if◌then◌else◌,
}
use hybrid_heaven_recomp.Sections.FileTable.{CodeFile}
use hybrid_heaven_recomp.Sections.Registry.{Registry, file_at, overlaps, evict, evict_from, add32}

-- The entry of index `j`, once the loop has seen it.
abbrev pub cleared : ℕ → ℕ → ℕ → ℕ → ℕ
cleared lo hi olo size = if overlaps lo hi olo size then 0 else olo

step_other :
    (i lo hi size j : ℕ) (s : Registry)
    → i ≢ j
    → (if overlaps lo hi (s.loaded_at i) size then evict i s else s).loaded_at j ≡ s.loaded_at j
unfolding evict
step_other i lo hi size j s h = ground (arith, ne→==_false i j h)

step_self :
    (i lo hi size : ℕ) (s : Registry)
    → (if overlaps lo hi (s.loaded_at i) size then evict i s else s).loaded_at i
      ≡ cleared lo hi (s.loaded_at i) size
unfolding evict
step_self i lo hi size s = ground (arith, ==_refl i)

pub evict_from_before :
    (fs : List CodeFile) (i lo hi j : ℕ) (s : Registry)
    → j < i
    → (evict_from fs i lo hi s).loaded_at j ≡ s.loaded_at j
unfolding evict_from
evict_from_before [] i lo hi j s h = refl
evict_from_before (f ∷ fs) i lo hi j s h =
    evict_from_before fs (i + 1) lo hi j
      (if overlaps lo hi (s.loaded_at i) f.size then evict i s else s) (omega arith)
    ∙ step_other i lo hi f.size j s (omega arith)

pub evict_from_at :
    (fs : List CodeFile) (i lo hi k j : ℕ) (f : CodeFile) (s : Registry)
    → file_at fs k ≡ some f
    → i + k ≡ j
    → (evict_from fs i lo hi s).loaded_at j ≡ cleared lo hi (s.loaded_at j) f.size
unfolding evict_from file_at
evict_from_at [] i lo hi k j f s e h = cc
evict_from_at (g ∷ fs) i lo hi zero j f s e h =
    let same : i ≡ j = omega arith in
    let same_file : g ≡ f = cc in
    let s' = if overlaps lo hi (s.loaded_at i) g.size then evict i s else s in
    rw (← same) (
      evict_from_before fs (i + 1) lo hi i s' (omega arith)
      ∙ (step_self i lo hi g.size s
          ∙ ap (λ (c : CodeFile). cleared lo hi (s.loaded_at i) c.size) same_file))
evict_from_at (g ∷ fs) i lo hi (suc k) j f s e h =
    let s' = if overlaps lo hi (s.loaded_at i) g.size then evict i s else s in
    evict_from_at fs (i + 1) lo hi k j f s' e (omega arith)
    ∙ ap (λ o. cleared lo hi o f.size) (step_other i lo hi g.size j s (omega arith))

pub evict_from_past :
    (fs : List CodeFile) (i lo hi k j : ℕ) (s : Registry)
    → file_at fs k ≡ none
    → i + k ≡ j
    → (evict_from fs i lo hi s).loaded_at j ≡ s.loaded_at j
unfolding evict_from file_at
evict_from_past [] i lo hi k j s e h = refl
evict_from_past (g ∷ fs) i lo hi zero j s e h = cc
evict_from_past (g ∷ fs) i lo hi (suc k) j s e h =
    evict_from_past fs (i + 1) lo hi k j
      (if overlaps lo hi (s.loaded_at i) g.size then evict i s else s) e (omega arith)
    ∙ step_other i lo hi g.size j s (omega arith)

-- The test of the loop, on an entry that is 0 or the address `gv`, with no wrap.
module _ (fv fs olo gv gs : ℕ) (linked : olo ≢ 0 → olo ≡ gv) (f_end : fv + fs < 2 ^ 32)
    (g_end : gv + gs < 2 ^ 32) where
  pub cleared_apart : (gv + gs ≤ fv) ⊎ (fv + fs ≤ gv) → cleared fv (add32 fv fs) olo gs ≡ olo
  unfolding overlaps
  cleared_apart d = elim (ℕ_discrete olo 0) [ yes z ↦ rw z | no nz ↦ rw (linked nz) (ground arith) ]

  pub cleared_overlap : fv < gv + gs → gv < fv + fs → cleared fv (add32 fv fs) olo gs ≡ 0
  unfolding overlaps
  cleared_overlap lo hi = elim (ℕ_discrete olo 0) [
    | yes z ↦ rw z
    | no nz ↦ rw (linked nz) (ground arith)
  ]
