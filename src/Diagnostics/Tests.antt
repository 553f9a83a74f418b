-- ===== src/Diagnostics/Tests.antt =====
-- A hang, a crash and a sample of three threads.
use hybrid_heaven_recomp.Prelude.{
  ℕ, ◌%◌, ◌^◌, ◌≡◌, refl, true, false, Option, none, some, List, [], ◌∷◌, ◌++◌, ltb, if◌then◌else◌,
  update, arith,
}
use hybrid_heaven_recomp.Diagnostics.Hang.{
  Watch, watch_for_hang, watch_done, lost, blind, address, report_hang, collect, see, is_seen,
}
use hybrid_heaven_recomp.Diagnostics.Crash.{
  access, access_violation, stack_overflow, writing, scan_stack, return_addresses,
}
use hybrid_heaven_recomp.Diagnostics.Watching.{looks, AllBefore, watch_for_hang-looks}
use hybrid_heaven_recomp.Diagnostics.Sampler.{
  Thread, Snapshot, start_sampler, report_samples, report_table, by_count, insert_count,
}
use hybrid_heaven_recomp.Diagnostics.Tally.{Tallies}
use hybrid_heaven_recomp.Diagnostics.Counted.{sample_rounds, report_samples-Tallies}

abbrev unwatched : Watch
unwatched = record {
  deadline = 0;
  what = none;
  seconds = 0;
  target = 0;
  known = λ thread. false;
  running = false;
}

abbrev audio_name : List ℕ
audio_name = b'a' ∷ b's' ∷ b'p' ∷ []

abbrev watched_audio : Watch
watched_audio = watch_for_hang 7 (some 42) 1000 audio_name 5 unwatched

watch_for_hang-looks_example :
    ((looks ((1100 ∷ 5900 ∷ []) ++ 6050 ∷ 6150 ∷ []) watched_audio).1
      ≡ record { thread = watched_audio.target; what = audio_name; seconds = 5 } ∷ [])
    × ((looks (1100 ∷ 5900 ∷ []) watched_audio).1 ≡ [])
    × ((looks (6150 ∷ []) (watch_done (looks (1100 ∷ 5900 ∷ []) watched_audio).0)).1 ≡ [])
    × (watched_audio.running ≡ true)
    × (watched_audio.target ≡ 42)
unfolding AllBefore
watch_for_hang-looks_example =
    watch_for_hang-looks 7 42 1000 audio_name 5 unwatched (1100 ∷ 5900 ∷ []) 6050 (6150 ∷ [])
      (omega arith) (omega arith, (omega arith, tt)) (omega arith)

loop_body :
    report_hang (address 16 ∷ address 24 ∷ blind ∷ address 16 ∷ address 0 ∷ lost ∷ address 32 ∷ [])
    ≡ 16 ∷ 24 ∷ []
unfolding report_hang collect see is_seen
loop_body = refl

fault :
    (access access_violation (1 ∷ 0x8000 ∷ []) ≡ some (writing, 0x8000))
    × (access stack_overflow (1 ∷ 0x8000 ∷ []) ≡ none)
unfolding access
fault = (refl, refl)

-- Two of the four words on the stack lie in a module.
scanned :
    return_addresses
      (update (update (λ slot. 0) 0x1008 0x40_0000) 0x1018 0x40_0010)
      0x1020
      (λ value. true)
      0x1000
    ≡ 0x40_0000 ∷ 0x40_0010 ∷ []
unfolding return_addresses scan_stack
scanned = refl

abbrev thread_at : ℕ → Option (ℕ × ℕ) → Thread
thread_at id context = record {
  owner_process = 1;
  id = id;
  opens = true;
  suspends = true;
  context = context;
}

-- The sampler's own thread, one in the main module, one in another, and one without a context.
abbrev four_threads : Snapshot
four_threads = record {
  threads = some (
      thread_at 9 (some (0x40_0000, 0))
      ∷ thread_at 2 (some (0x40_0010, 0))
      ∷ thread_at 3 (some (0x100, 0x1000))
      ∷ thread_at 4 none
      ∷ []);
  owner = λ addr. if ltb addr 0x40_0000 then none else some 0x40_0000;
  committed = λ addr. none;
  stack = λ addr. 0;
}

report_samples-Tallies_example :
    let r =
      report_samples
        (sample_rounds 9 1 0x40_0000 (four_threads ∷ four_threads ∷ []) start_sampler) in
    (e : ℕ) × (p : ℕ) × Tallies 9 1 0x40_0000 (four_threads ∷ four_threads ∷ []) e p
    × (r.running ≡ e % 2 ^ 64)
    × (r.parked ≡ p % 2 ^ 64)
    × (r.rounds ≡ 2 % 2 ^ 64)
report_samples-Tallies_example =
    report_samples-Tallies 9 1 0x40_0000 (four_threads ∷ four_threads ∷ [])

-- The largest counters stand first.
top_two : report_table ((16, 1) ∷ (24, 5) ∷ (32, 3) ∷ []) 2 ≡ (24, 5) ∷ (32, 3) ∷ []
unfolding report_table by_count insert_count
top_two = refl
