-- ===== src/Audio/Rate.antt =====
-- src/resample.cpp, `configure` and `to_source_frames`, and the settings of src/callbacks.cpp that
-- bear on the queue. The filter and its history are a parameter: its state after `configure`, and
-- what `process` does with a buffer when the rates differ.
pub mod Bounds
use hybrid_heaven_recomp.Prelude.{
  ℕ, ◌+◌, ◌-◌, ◌*◌, ◌/◌, ◌%◌, ◌^◌, ℤ, pos, negsuc, Bool, true, false, ◌||◌, Option, none, some,
  List, ◌==◌, ltb, if◌then◌else◌,
}

pub record Filter (State : Type 0) : Type 0 where
  pub fresh : ℕ → ℕ → State
  pub convert : State → List ℤ → State × List ℤ

-- `g_src`, `g_dst`, `g_passthrough` and the filter's own state.
pub record Resampler (State : Type 0) : Type 0 where
  pub src : ℕ
  pub dst : ℕ
  pub passthrough : Bool
  pub state : State

unfoldable pub to_source_frames : {State : Type 0} → Resampler State → ℕ → ℕ
to_source_frames r dst_frames =
    if r.passthrough || r.dst == 0 then dst_frames else dst_frames * r.src % 2 ^ 64 / r.dst

module _ {State : Type 0} (filter : Filter State) where
  unfoldable pub configure : ℕ → ℕ → Resampler State
  configure src_rate dst_rate = record {
    src = src_rate;
    dst = dst_rate;
    passthrough = src_rate == 0 || dst_rate == 0 || src_rate == dst_rate;
    state = filter.fresh src_rate dst_rate;
  }

  unfoldable pub process : Resampler State → List ℤ → Resampler State × List ℤ
  process r samples =
      if r.passthrough
      then (r, samples)
      else let (state', out) = filter.convert r.state samples in (record r { state = state' }, out)

-- HH_AUDIO_HEADROOM_MS as `strtol` reads it, if it is set.
unfoldable pub queue_headroom_ms : Option ℤ → ℕ
queue_headroom_ms none = 30
queue_headroom_ms (some (pos ms)) = ms % 2 ^ 32
queue_headroom_ms (some (negsuc ms)) = 0

-- HH_AUDIO_PERIOD, likewise; a `long` that fits an `int`.
unfoldable pub device_period_frames : Option ℤ → ℕ
device_period_frames none = 512
device_period_frames (some (pos frames)) = if ltb frames 32 then 512 else frames
device_period_frames (some (negsuc frames)) = 512

-- The headroom in the game's own frames, as a `uint32_t`.
unfoldable pub headroom_frames : ℕ → ℕ → ℕ
headroom_frames frequency ms = frequency * ms % 2 ^ 64 / 1000 % 2 ^ 32
