-- ===== src/Sections/Registry/Consistent.antt =====
-- No sequence of loads leaves two code files over one address.
use native.Mathlib.Decide.{ℕ_discrete, dec_lt}
use hybrid_heaven_recomp.Prelude.{
  ℕ, ◌+◌, ◌%◌, ◌^◌, ◌≤◌, ◌≡◌, ◌≢◌, refl, ◌⊎◌, inl, inr, ap, sym, ◌∙◌, true, none, some, List, [],
  ◌∷◌, arith, ◌==◌, ne→==_false, Bool-cases, Option-cases,
}
use hybrid_heaven_recomp.Sections.FileTable.{CodeFile}
use hybrid_heaven_recomp.Sections.Registry.{
  Registry, initial, file_at, code_file_index, place, add32, announce_load, file_load_hook,
  file_load_streamed_hook,
}
use hybrid_heaven_recomp.Sections.Registry.Overlap.{evict_from_past}
use hybrid_heaven_recomp.Sections.Registry.Load.{
  IsTable, IsConsistent, Covers, announce_load-place, loaded_at-place, announce_load_lem,
}

flip : {A B : Type 0} → A ⊎ B → B ⊎ A
flip (inl a) = inr a
flip (inr b) = inl b

module _ (files : List CodeFile) (s : Registry) (id dest k : ℕ) (f : CodeFile) (t : IsTable files)
    (c : IsConsistent files s) (e : code_file_index files id ≡ some k)
    (h : file_at files k ≡ some f) where
  abbrev after : Registry
  after = announce_load files s id dest

  -- An entry other than the file's own is 0 or as it was.
  after_other :
      (j : ℕ) (g : CodeFile)
      → k ≢ j
      → file_at files j ≡ some g
      → after.loaded_at j ≢ 0
      → after.loaded_at j ≡ s.loaded_at j
  after_other j g ne at = rw (announce_load-place files s id dest k f e h) (
      ground (
        arith,
        loaded_at-place files s k j f.vram (add32 f.vram f.size) f.vram g at,
        ne→==_false k j ne,
      ))

  after_beyond : (j : ℕ) → file_at files j ≡ none → after.loaded_at j ≡ 0
  after_beyond j none_at =
      let ne : k ≢ j = λ p. cc (ap (file_at files) p) in
      rw (announce_load-place files s id dest k f e h) (
        unfold place in
        ground (
          arith,
          evict_from_past files 0 f.vram (add32 f.vram f.size) j j s none_at (omega arith),
          ne→==_false k j ne,
          c.beyond j none_at,
        ))

  -- A file that stays loaded beside the new one does not overlap it.
  after_apart :
      (j : ℕ) (g : CodeFile)
      → k ≢ j
      → file_at files j ≡ some g
      → after.loaded_at j ≢ 0
      → (f.vram + f.size ≤ g.vram) ⊎ (g.vram + g.size ≤ f.vram)
  after_apart j g ne at nz =
      let gone = ((announce_load_lem files s id dest k f t c e h).1 j g ne at).1 in
      elim (dec_lt f.vram (g.vram + g.size)) [
        | yes lo ↦ elim (dec_lt g.vram (f.vram + f.size)) [
          | yes hi ↦ absurd (nz (gone lo hi))
          | no hi ↦ inl (omega arith)
        ]
        | no lo ↦ inr (omega arith)
      ]

  after-IsConsistent : IsConsistent files after
  after-IsConsistent = record {
    linked = λ i g at nz. elim (ℕ_discrete k i) [
      | yes p ↦
          let same : f ≡ g = cc (ap (file_at files) p) in
          ap after.loaded_at (sym p)
          ∙ ((announce_load_lem files s id dest k f t c e h).0 ∙ ap (λ (x : CodeFile). x.vram) same)
      | no ne ↦ let kept = after_other i g ne at nz in kept ∙ c.linked i g at (λ z. nz (kept ∙ z))
    ];
    beyond = after_beyond;
    apart = λ i j g g' ne at at' nz nz'. elim (ℕ_discrete k i) [
      | yes p ↦
          let same : f ≡ g = cc (ap (file_at files) p) in
          rw (← same) (after_apart j g' (λ q. ne (sym p ∙ q)) at' nz')
      | no nk ↦ elim (ℕ_discrete k j) [
        | yes p ↦
            let same : f ≡ g' = cc (ap (file_at files) p) in
            rw (← same) (flip (after_apart i g nk at nz))
        | no nk' ↦
            let kept = after_other i g nk at nz in
            let kept' = after_other j g' nk' at' nz' in
            c.apart i j g g' ne at at' (λ z. nz (kept ∙ z)) (λ z. nz' (kept' ∙ z))
      ]
    ];
  }

-- An id that is no code file's changes nothing.
pub announce_load_data :
    (files : List CodeFile) (s : Registry) (id dest : ℕ)
    → code_file_index files id ≡ none
    → announce_load files s id dest ≡ s
unfolding announce_load
announce_load_data files s id dest e = ground arith

pub announce_load_missing :
    (files : List CodeFile) (s : Registry) (id dest k : ℕ)
    → code_file_index files id ≡ some k
    → file_at files k ≡ none
    → announce_load files s id dest ≡ s
unfolding announce_load
announce_load_missing files s id dest k e h = ground arith

-- A load of any id, code file or not, keeps the table consistent.
pub announce_load-IsConsistent :
    (files : List CodeFile) (s : Registry) (id dest : ℕ)
    → IsTable files
    → IsConsistent files s
    → IsConsistent files (announce_load files s id dest)
announce_load-IsConsistent files s id dest t c = elim (Option-cases (code_file_index files id)) [
  | inl e ↦ rw (announce_load_data files s id dest e) c
  | inr (k, e) ↦ elim (Option-cases (file_at files k)) [
    | inl h ↦ rw (announce_load_missing files s id dest k e h) c
    | inr (f, h) ↦ after-IsConsistent files s id dest k f t c e h
  ]
]

-- The game's calls of its two loaders, with their arguments in `r4` and `r5`.
pub data Load : Type 0 where
  direct : ℕ → ℕ → Load
  streamed : ℕ → ℕ → Load

-- What the recompiled loaders do to the game's state; the streamed one returns `r2` too.
pub record Loaders (Game : Type 0) : Type 0 where
  pub whole : Game → Game
  pub piece : Game → Game × ℕ

module _ {Game : Type 0} (files : List CodeFile) (loaders : Loaders Game) where
  unfoldable pub run : Registry × Game → List Load → Registry × Game
  run s [] = s
  run s (direct r4 r5 ∷ ls) = run (file_load_hook files loaders.whole s r4 r5) ls
  run s (streamed r4 r5 ∷ ls) = run (file_load_streamed_hook files loaders.piece s r4 r5) ls

  known-IsConsistent :
      {s : Registry} → IsConsistent files s → IsConsistent files (record s { rdram_known = true })
  known-IsConsistent c = record { linked = c.linked; beyond = c.beyond; apart = c.apart }

  direct-IsConsistent :
      (st : Registry × Game) (r4 r5 : ℕ)
      → IsTable files
      → IsConsistent files st.0
      → IsConsistent files (file_load_hook files loaders.whole st r4 r5).0
  unfolding file_load_hook
  direct-IsConsistent (s, g) r4 r5 t c =
      announce_load-IsConsistent files (record s { rdram_known = true }) (r4 % 2 ^ 32) (r5 % 2 ^ 32)
        t (known-IsConsistent c)

  streamed-IsConsistent :
      (st : Registry × Game) (r4 r5 : ℕ)
      → IsTable files
      → IsConsistent files st.0
      → IsConsistent files (file_load_streamed_hook files loaders.piece st r4 r5).0
  unfolding file_load_streamed_hook
  streamed-IsConsistent (s, g) r4 r5 t c = elim (Bool-cases ((loaders.piece g).1 == 0)) [
    | inl e ↦ rw e c
    | inr e ↦ rw e (announce_load-IsConsistent files s (r4 % 2 ^ 32) (r5 % 2 ^ 32) t c)
  ]

  run-IsConsistent :
      (st : Registry × Game) (ls : List Load)
      → IsTable files
      → IsConsistent files st.0
      → IsConsistent files (run st ls).0
  unfolding run
  run-IsConsistent st [] t c = c
  run-IsConsistent st (direct r4 r5 ∷ ls) t c =
      run-IsConsistent (file_load_hook files loaders.whole st r4 r5) ls t
        (direct-IsConsistent st r4 r5 t c)
  run-IsConsistent st (streamed r4 r5 ∷ ls) t c =
      run-IsConsistent (file_load_streamed_hook files loaders.piece st r4 r5) ls t
        (streamed-IsConsistent st r4 r5 t c)

pub initial-IsConsistent : (files : List CodeFile) → IsConsistent files initial
initial-IsConsistent files = record {
  linked = λ i f at nz. absurd (nz refl);
  beyond = λ i at. refl;
  apart = λ i j f g ne at at' nz nz'. absurd (nz refl);
}

Covers-unique :
    (files : List CodeFile) (s : Registry) (i j a : ℕ)
    → IsConsistent files s
    → Covers files s i a
    → Covers files s j a
    → i ≡ j
Covers-unique files s i j a c x y = elim (ℕ_discrete i j) [
  | yes e ↦ e
  | no ne ↦ absurd (
      omega (
        arith,
        c.apart i j x.file y.file ne x.at y.at x.loaded y.loaded,
        c.linked i x.file x.at x.loaded,
        c.linked j y.file y.at y.loaded,
        x.low,
        x.high,
        y.low,
        y.high,
      ))
]

-- Over a table whose files lie in the 32-bit address space: whatever the recompiled loaders do, after
-- any sequence of calls of the two loaders every loaded file is at its link address, and no address is
-- covered by the code of two loaded files.
pub run-Covers :
    {Game : Type 0} (files : List CodeFile) (loaders : Loaders Game) (g : Game) (ls : List Load)
    → IsTable files
    → let s = (run files loaders (initial, g) ls).0 in
      ((i : ℕ) (f : CodeFile)
        → file_at files i ≡ some f
        → s.loaded_at i ≢ 0
        → s.loaded_at i ≡ f.vram)
      × ((i j a : ℕ) → Covers files s i a → Covers files s j a → i ≡ j)
run-Covers files loaders g ls t =
    let c = run-IsConsistent files loaders (initial, g) ls t (initial-IsConsistent files) in
    (c.linked, λ i j a x y. Covers-unique files (run files loaders (initial, g) ls).0 i j a c x y)
