-- ===== src/Sections/Registry/Runtime.antt =====
-- What librecomp was told agrees with the port's own table.

use hybrid_heaven_recomp.Prelude.{
  ℕ, ◌+◌, ◌%◌, ◌^◌, ◌≡◌, refl, inl, inr, ap, ◌∙◌, Bool, true, false, List, [], ◌∷◌, ◌++◌, ◌==◌,
  if◌then◌else◌, update, Bool-cases, Option-cases,
}
use hybrid_heaven_recomp.Sections.FileTable.{CodeFile}
use hybrid_heaven_recomp.Sections.Registry.{
  Registry, Call, unload, load, initial, file_at, code_file_index, overlaps, evict, evict_from,
  place, add32, announce_load, file_load_hook, file_load_streamed_hook,
}
use hybrid_heaven_recomp.Sections.Registry.Consistent.{
  Load, direct, streamed, Loaders, run, announce_load_data, announce_load_missing,
}
use hybrid_heaven_recomp.Sections.Registry.Load.{announce_load-place}

-- Where the calls so far leave each overlay: its address, or 0.
pub resident : (ℕ → ℕ) → List Call → ℕ → ℕ
resident at [] = at
resident at (unload i ∷ cs) = resident (update at i 0) cs
resident at (load i vram ∷ cs) = resident (update at i vram) cs

resident-append :
    (at : ℕ → ℕ) (cs ds : List Call) → resident at (cs ++ ds) ≡ resident (resident at cs) ds
unfolding resident
resident-append at [] ds = refl
resident-append at (unload i ∷ cs) ds = resident-append (update at i 0) cs ds
resident-append at (load i vram ∷ cs) ds = resident-append (update at i vram) cs ds

-- The table is what the calls made from an empty map amount to.
abbrev pub Agrees : Registry → Type 0
Agrees s = resident (λ i. 0) s.calls ≡ s.loaded_at

evict-Agrees : (i : ℕ) (s : Registry) → Agrees s → Agrees (evict i s)
unfolding evict resident
evict-Agrees i s h = resident-append (λ j. 0) s.calls (unload i ∷ []) ∙ ap (λ at. update at i 0) h

place-Agrees : (i vram : ℕ) (s : Registry) → Agrees s → Agrees (place i vram s)
unfolding place resident
place-Agrees i vram s h =
    resident-append (λ j. 0) s.calls (load i vram ∷ []) ∙ ap (λ at. update at i vram) h

either-Agrees : (b : Bool) (i : ℕ) (s : Registry) → Agrees s → Agrees (if b then evict i s else s)
either-Agrees true i s h = evict-Agrees i s h
either-Agrees false i s h = h

evict_from-Agrees :
    (fs : List CodeFile) (i lo hi : ℕ) (s : Registry) → Agrees s → Agrees (evict_from fs i lo hi s)
unfolding evict_from
evict_from-Agrees [] i lo hi s h = h
evict_from-Agrees (f ∷ fs) i lo hi s h =
    evict_from-Agrees fs (i + 1) lo hi
      (if overlaps lo hi (s.loaded_at i) f.size then evict i s else s)
      (either-Agrees (overlaps lo hi (s.loaded_at i) f.size) i s h)

announce_load-Agrees :
    (files : List CodeFile) (s : Registry) (id dest : ℕ)
    → Agrees s
    → Agrees (announce_load files s id dest)
announce_load-Agrees files s id dest h = elim (Option-cases (code_file_index files id)) [
  | inl e ↦ rw (announce_load_data files s id dest e) h
  | inr (k, e) ↦ elim (Option-cases (file_at files k)) [
    | inl m ↦ rw (announce_load_missing files s id dest k e m) h
    | inr (f, m) ↦ rw (announce_load-place files s id dest k f e m) (
        place-Agrees k f.vram (evict_from files 0 f.vram (add32 f.vram f.size) s)
          (evict_from-Agrees files 0 f.vram (add32 f.vram f.size) s h))
  ]
]

module _ {Game : Type 0} (files : List CodeFile) (loaders : Loaders Game) where
  step-Agrees :
      (st : Registry × Game) (r4 r5 : ℕ)
      → Agrees st.0
      → Agrees (file_load_hook files loaders.whole st r4 r5).0
        × Agrees (file_load_streamed_hook files loaders.piece st r4 r5).0
  unfolding file_load_hook file_load_streamed_hook
  step-Agrees (s, g) r4 r5 h = (
    announce_load-Agrees files (record s { rdram_known = true }) (r4 % 2 ^ 32) (r5 % 2 ^ 32) h,
    elim (Bool-cases ((loaders.piece g).1 == 0)) [
      | inl e ↦ rw e h
      | inr e ↦ rw e (announce_load-Agrees files s (r4 % 2 ^ 32) (r5 % 2 ^ 32) h)
    ],
  )

  run_from-Agrees :
      (st : Registry × Game) (ls : List Load) → Agrees st.0 → Agrees (run files loaders st ls).0
  unfolding run
  run_from-Agrees st [] h = h
  run_from-Agrees st (direct r4 r5 ∷ ls) h =
      run_from-Agrees (file_load_hook files loaders.whole st r4 r5) ls (step-Agrees st r4 r5 h).0
  run_from-Agrees st (streamed r4 r5 ∷ ls) h =
      run_from-Agrees (file_load_streamed_hook files loaders.piece st r4 r5) ls
        (step-Agrees st r4 r5 h).1

  -- After any calls of the two loaders, the overlays that the calls into librecomp leave loaded, and
  -- their addresses, are those of the port's table; and a streamed call that returns 0 makes none.
  pub run-Agrees :
      (g : Game) (ls : List Load)
      → Agrees (run files loaders (initial, g) ls).0
        × ((s : Registry) (h : Game) (r4 r5 : ℕ)
            → (loaders.piece h).1 ≡ 0
            → (file_load_streamed_hook files loaders.piece (s, h) r4 r5).0 ≡ s)
  run-Agrees g ls = (
    run_from-Agrees (initial, g) ls (unfold resident in refl),
    λ s h r4 r5 e. unfold file_load_streamed_hook in rw e,
  )
