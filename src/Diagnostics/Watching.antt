-- ===== src/Diagnostics/Watching.antt =====
-- Work that is watched is reported once if it hangs, and not at all if it ends in time.
use hybrid_heaven_recomp.Prelude.{
  update, if◌then◌else◌, ℕ, ◌+◌, ◌*◌, ◌≡◌, ◌≤◌, ◌<◌, refl, ap, sym, ◌∙◌, inl, inr, append_nil,
  Bool-cases, true, false, ◌||◌, Option, none, some, List, [], ◌∷◌, ◌++◌, ◌==◌, ltb, arith,
}
use hybrid_heaven_recomp.Diagnostics.Hang.{
  Watch, watch_for_hang, arm, watch_done, watch_look, Hang, named,
}

unfoldable pub reported : Option Hang → List Hang → List Hang
reported none hangs = hangs
reported (some hang) hangs = hang ∷ hangs

-- The rounds of the watchdog at these times, and what they report_samples.
unfoldable pub looks : List ℕ → Watch → Watch × List Hang
looks [] s = (s, [])
looks (now ∷ times) s =
    let (s', hang) = watch_look now s in
    let (s'', hangs) = looks times s' in (s'', reported hang hangs)

unfoldable pub AllBefore : ℕ → List ℕ → Type 0
AllBefore deadline [] = Unit
AllBefore deadline (now ∷ times) = (now < deadline) × AllBefore deadline times

look_quiet :
    (now : ℕ) (s : Watch)
    → ((s.deadline == 0 || ltb now s.deadline) ≡ true)
    → watch_look now s ≡ (s, none)
unfolding watch_look
look_quiet now s h = rw h refl

looks_quiet :
    (now : ℕ) (times : List ℕ) (s : Watch)
    → ((s.deadline == 0 || ltb now s.deadline) ≡ true)
    → looks (now ∷ times) s ≡ looks times s
unfolding looks reported
looks_quiet now times s h = rw (look_quiet now s h) refl

looks_idle : (times : List ℕ) (s : Watch) → s.deadline ≡ 0 → looks times s ≡ (s, [])
unfolding looks watch_look reported
looks_idle [] s h = refl
looks_idle (now ∷ times) s h = looks_quiet now times s (ground (arith, h)) ∙ looks_idle times s h

looks_early :
    (early times : List ℕ) (s : Watch)
    → AllBefore s.deadline early
    → looks (early ++ times) s ≡ looks times s
unfolding looks watch_look reported AllBefore
looks_early [] times s all = refl
looks_early (now ∷ early) times s (h, all) =
    looks_quiet now (early ++ times) s (ground (arith, h)) ∙ looks_early early times s all

looks_late :
    (now : ℕ) (times : List ℕ) (s : Watch)
    → 0 < s.deadline
    → s.deadline ≤ now
    → (looks (now ∷ times) s).1
      ≡ record { thread = s.target; what = named s.what; seconds = s.seconds } ∷ []
unfolding looks watch_look reported
looks_late now times s h h' =
    let due : (s.deadline == 0 || ltb now s.deadline) ≡ false = ground (arith, h, h') in
    rw due (
      ap
        (λ (r : Watch × List Hang).
          record { thread = s.target; what = named s.what; seconds = s.seconds } ∷ r.1)
        (looks_idle times (record s { deadline = 0 }) refl))

looks_before : (early : List ℕ) (s : Watch) → AllBefore s.deadline early → looks early s ≡ (s, [])
unfolding looks
looks_before early s all =
    ap (λ times. looks times s) (sym (append_nil early)) ∙ looks_early early [] s all

armed_lem :
    (s : Watch) (early : List ℕ) (at_last : ℕ) (late : List ℕ)
    → 0 < s.deadline
    → AllBefore s.deadline early
    → s.deadline ≤ at_last
    → ((looks (early ++ at_last ∷ late) s).1
        ≡ record { thread = s.target; what = named s.what; seconds = s.seconds } ∷ [])
      × ((looks early s).1 ≡ [])
      × ((looks late (watch_done (looks early s).0)).1 ≡ [])
armed_lem s early at_last late h all h' = (
  ap (λ r. r.1) (looks_early early (at_last ∷ late) s all) ∙ looks_late at_last late s h h',
  ap (λ r. r.1) (looks_before early s all),
  ap (λ r. r.1) (looks_idle late (watch_done (looks early s).0) (unfold watch_done in refl)),
)

-- Work that is watched from the time `now` on, not 0, for some seconds, by a thread that is registered or
-- whose handle is given: the watchdog's thread is started, and of its looks in their order the first at or
-- after the deadline reports the work, with its name, its seconds and the handle of the registration or
-- the one given, and no other look does. Where the work is done before that look, no look reports it.
pub watch_for_hang-looks :
    (thread handle now : ℕ) (what : List ℕ) (seconds : ℕ) (s : Watch) (early : List ℕ) (at_last : ℕ)
    (late : List ℕ)
    → 0 < now
    → AllBefore (now + seconds * 1000) early
    → now + seconds * 1000 ≤ at_last
    → let watched = watch_for_hang thread (some handle) now what seconds s in
      ((looks (early ++ at_last ∷ late) watched).1
        ≡ record { thread = watched.target; what = what; seconds = seconds } ∷ [])
      × ((looks early watched).1 ≡ [])
      × ((looks late (watch_done (looks early watched).0)).1 ≡ [])
      × (watched.running ≡ true)
      × (watched.target ≡ (if s.known thread then s.target else handle))
unfolding watch_for_hang arm named
watch_for_hang-looks thread handle now what seconds s early at_last late h all h' =
    elim (Bool-cases (s.known thread)) [
      | inl e ↦
          let (once, before, done) =
            armed_lem (arm now what seconds s) early at_last late (omega arith) all h' in
          rw e (once, before, done, refl, refl)
      | inr e ↦
          let (once, before, done) =
            armed_lem
              (arm now what seconds
                (record s { target = handle; known = update s.known thread true }))
              early at_last late (omega arith) all h' in
          rw e (once, before, done, refl, refl)
    ]
