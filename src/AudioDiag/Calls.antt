-- ===== src/AudioDiag/Calls.antt =====
-- What src/callbacks.cpp calls. The two switches are HH_AUDIO_STATS and HH_AUDIO_DUMP.
use hybrid_heaven_recomp.Prelude.{
  ℕ, ◌-◌, ◌/◌, ◌%◌, ◌^◌, ℤ, Bool, true, false, not, ◌&&◌, Option, none, some, List, [], ◌∷◌, ◌==◌,
  leb, if◌then◌else◌, length, Floats,
}
use hybrid_heaven_recomp.AudioDiag.Window.{
  Stats, reset_window, note_depth, note_buffer, Verdict, report,
}
use hybrid_heaven_recomp.AudioDiag.Wav.{Dump, open_wav, write_wav}

-- A variable that is set, not empty, and not just 0.
unfoldable pub env_set : Option (List ℕ) → Bool
env_set none = false
env_set (some []) = false
env_set (some (c ∷ [])) = not (c == b'0')
env_set (some (c ∷ d ∷ cs)) = true

pub record Diag : Type 0 where
  pub stats_enabled : Bool
  pub dump_enabled : Bool
  pub stats : Stats
  pub dump : Dump

unfoldable pub device_opened : Bool → ℕ → ℕ → ℕ → Diag → Diag
device_opened opens now asked_rate asked_period_frames d =
    let fresh : Stats = record d.stats {
      rate = asked_rate;
      period_frames = asked_period_frames;
      depth_after_queue = 0;
    } in
    if not d.stats_enabled && not d.dump_enabled then d else record d {
      stats = reset_window now fresh;
      dump = if d.dump_enabled then open_wav opens asked_rate d.dump else d.dump;
    }

module _ {F : Type 0} (fl : Floats F) (seconds_of : ℕ → F) where
  -- The verdict where a window ends; two seconds are so many ticks of the clock.
  unfoldable pub end_window : ℕ → ℕ → Stats → Stats × Option Verdict
  end_window two_seconds now s =
      if leb two_seconds (now - s.window_start)
      then (reset_window now s, some (report fl seconds_of now s))
      else (s, none)

  unfoldable pub queued_stats : ℕ → ℕ → ℕ → List ℤ → Stats → Stats × Option Verdict
  queued_stats two_seconds now queue_frames samples s =
      let frames = length samples / 2 % 2 ^ 32 in
      end_window two_seconds now
        (note_buffer queue_frames frames samples (note_depth queue_frames s))

  unfoldable pub queued : ℕ → ℕ → ℕ → List ℤ → Diag → Diag × Option Verdict
  queued two_seconds now queue_frames samples d =
      let dumped : Diag = record d {
        dump = if d.dump_enabled then write_wav samples d.dump else d.dump;
      } in
      let (stats', verdict) = queued_stats two_seconds now queue_frames samples d.stats in
      if d.stats_enabled then (record dumped { stats = stats' }, verdict) else (dumped, none)

unfoldable pub polled : ℕ → Diag → Diag
polled queue_frames d =
    if d.stats_enabled then record d { stats = note_depth queue_frames d.stats } else d
