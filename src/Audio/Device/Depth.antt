-- ===== src/Audio/Device/Depth.antt =====
-- What the game is told of the queue.
use hybrid_heaven_recomp.Prelude.{
  ℕ, ◌+◌, ◌-◌, ◌*◌, ◌/◌, ◌≤◌, ◌≡◌, refl, ℤ, true, List, ◌++◌, length, length-append, arith,
}
use hybrid_heaven_recomp.Audio.Sample.{unswap, at_volume}
use hybrid_heaven_recomp.Audio.Sample.Volume.{length-at_volume, length-unswap}
use hybrid_heaven_recomp.Audio.Rate.{Filter, process, to_source_frames}
use hybrid_heaven_recomp.Audio.Device.{Audio, effective_volume, get_frames_remaining, queue_samples}

-- The depth of a queue of so many frames.
reported :
    {State : Type 0} (s : Audio State) (frames : ℕ)
    → s.device_open ≡ true
    → s.resampler.passthrough ≡ true
    → length s.queue ≡ frames * 2
    → s.queue_headroom_frames ≤ frames
    → get_frames_remaining s ≡ frames - s.queue_headroom_frames
unfolding get_frames_remaining to_source_frames
reported s frames o p q h =
    let half : length s.queue * 2 / 4 ≡ frames = omega arith in simp (o, p, half) (ground arith)

module _ {State : Type 0} (filter : Filter State) where
  queued_direct :
      (s : Audio State) (samples : List ℤ)
      → s.device_open ≡ true
      → s.resampler.passthrough ≡ true
      → queue_samples filter s samples
        ≡ record s { queue = s.queue ++ at_volume (effective_volume s) (unswap samples) }
  unfolding queue_samples process
  queued_direct s samples o p = simp (o, p) refl

  -- On a device at the game's own rate, whose queue holds at least the headroom: after a buffer is
  -- queued the game is told of as many more frames as the buffer has, at whatever volume.
  pub get_frames_remaining-queue_samples :
      (s : Audio State) (samples : List ℤ) (queued frames : ℕ)
      → s.device_open ≡ true
      → s.resampler.passthrough ≡ true
      → length s.queue ≡ queued * 2
      → length samples ≡ frames * 2
      → s.queue_headroom_frames ≤ queued
      → get_frames_remaining (queue_samples filter s samples) ≡ get_frames_remaining s + frames
  get_frames_remaining-queue_samples s samples queued frames o p q n h =
      let out = at_volume (effective_volume s) (unswap samples) in
      let more : length (s.queue ++ out) ≡ (queued + frames) * 2 = omega (
        arith,
        length-append s.queue out,
        length-at_volume (effective_volume s) (unswap samples),
        length-unswap samples,
      ) in
      rw (queued_direct s samples o p) (
        omega (
          arith,
          reported s queued o p q h,
          reported (record s { queue = s.queue ++ out }) (queued + frames) o p more (omega arith),
        ))
