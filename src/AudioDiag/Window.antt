-- ===== src/AudioDiag/Window.antt =====
-- The counters of a window. Times are counted by the steady clock.
use hybrid_heaven_recomp.Prelude.{
  ℕ, ◌+◌, ◌-◌, ◌/◌, ◌%◌, ◌^◌, ℤ, pos, negsuc, Bool, true, false, not, ◌&&◌, ◌||◌, List, [], ◌∷◌,
  ◌==◌, ltb, leb, if◌then◌else◌, Floats,
}

pub record Stats : Type 0 where
  pub rate : ℕ
  pub period_frames : ℕ
  pub window_start : ℕ
  pub buffers : ℕ
  pub frames : ℕ
  pub buffer_min : ℕ
  pub buffer_max : ℕ
  pub depth_min : ℕ
  pub depth_max : ℕ
  pub depth_total : ℕ
  pub depth_samples : ℕ
  pub peak : ℕ
  pub have_depth : Bool
  pub depth_after_queue : ℕ
  pub depth_at_start : ℕ

unfoldable pub reset_window : ℕ → Stats → Stats
reset_window now s = record s {
  window_start = now;
  buffers = 0;
  frames = 0;
  buffer_min = 0;
  buffer_max = 0;
  depth_min = 0;
  depth_max = 0;
  depth_total = 0;
  depth_samples = 0;
  depth_at_start = s.depth_after_queue;
  peak = 0;
  have_depth = false;
}

unfoldable pub note_depth : ℕ → Stats → Stats
note_depth frames s = record s {
  depth_min = if not s.have_depth || ltb frames s.depth_min then frames else s.depth_min;
  depth_max = if not s.have_depth || ltb s.depth_max frames then frames else s.depth_max;
  have_depth = true;
  depth_total = (s.depth_total + frames) % 2 ^ 64;
  depth_samples = (s.depth_samples + 1) % 2 ^ 64;
}

unfoldable pub avg_depth : Stats → ℕ
avg_depth s = if s.depth_samples == 0 then 0 else s.depth_total / s.depth_samples

unfoldable pub magnitude : ℤ → ℕ
magnitude (pos n) = n
magnitude (negsuc n) = n + 1

-- The loop over a buffer.
unfoldable pub peak_of : ℕ → List ℤ → ℕ
peak_of peak [] = peak
peak_of peak (x ∷ xs) = peak_of (if ltb peak (magnitude x) then magnitude x else peak) xs

-- What a buffer of so many frames adds, once the depth is noted.
unfoldable pub note_buffer : ℕ → ℕ → List ℤ → Stats → Stats
note_buffer queue_frames frames samples s = record s {
  buffer_min = if s.buffers == 0 || ltb frames s.buffer_min then frames else s.buffer_min;
  buffer_max = if ltb s.buffer_max frames then frames else s.buffer_max;
  buffers = (s.buffers + 1) % 2 ^ 64;
  frames = (s.frames + frames) % 2 ^ 64;
  depth_after_queue = (queue_frames + frames) % 2 ^ 32;
  peak = peak_of s.peak samples;
}

-- What a window says of the queue.
pub data Verdict : Type 0 where
  nothing_to_say never_below_a_period silence_inserted no_silence : Verdict

module _ {F : Type 0} (fl : Floats F) (seconds_of : ℕ → F) where
  unfoldable pub count : ℕ → F
  count n = fl.int (pos n)

  -- What the device wanted, less what it got of what was handed over.
  unfoldable pub silence : ℕ → Stats → F
  silence now s =
      let wanted = fl.mul (seconds_of (now - s.window_start)) (count s.rate) in
      let kept = fl.sub (count s.depth_after_queue) (count s.depth_at_start) in
      fl.sub wanted (fl.sub (count s.frames) kept)

  unfoldable pub report : ℕ → Stats → Verdict
  report now s =
      if fl.le (seconds_of (now - s.window_start)) (count 0) || s.buffers == 0
      then nothing_to_say
      else if s.have_depth && leb s.period_frames s.depth_min
      then never_below_a_period
      else if fl.lt (count 0) (silence now s)
      then silence_inserted
      else no_silence
