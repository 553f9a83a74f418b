-- ===== src/Audio/Device.antt =====
-- src/callbacks.cpp: the output device, its queue, and what the runtime asks of them. What SDL
-- answers is a parameter of each call. The queue is what SDL holds, in samples; SDL takes from its
-- front as it plays.
pub mod Tuned
pub mod Run
pub mod Depth
use hybrid_heaven_recomp.Prelude.{
  ℕ, ◌+◌, ◌-◌, ◌*◌, ◌/◌, ◌%◌, ◌^◌, ℤ, pos, negsuc, Bool, true, false, not, ◌&&◌, Option, none, some,
  List, [], ◌∷◌, ◌++◌, ◌==◌, ltb, if◌then◌else◌, length, drop,
}
use hybrid_heaven_recomp.Audio.Sample.{unswap, clamp_percent, at_volume}
use hybrid_heaven_recomp.Audio.Rate.{
  Filter, Resampler, configure, process, to_source_frames, headroom_frames,
}

-- `initialised` is SDL_InitSubSystem; `default_rate` the rate that SDL_GetDefaultAudioInfo gives, if
-- it gives one; `open_device` the rate of the device that opens when one is wanted.
pub record Sdl : Type 0 where
  pub initialised : Bool
  pub default_rate : Option ℕ
  pub open_device : ℕ → Option ℕ

-- HH_AUDIO_NO_RESAMPLE is not set, and `queue_headroom_ms`.
pub record Settings : Type 0 where
  pub resample_in_port : Bool
  pub headroom_ms : ℕ

pub record Audio (State : Type 0) : Type 0 where
  pub device_open : Bool
  pub audio_frequency : ℕ
  pub device_frequency : ℕ
  pub queue_headroom_frames : ℕ
  pub volume : ℤ
  pub window_focused : Bool
  pub mute_unfocused : Bool
  pub resampler : Resampler State
  pub queue : List ℤ

abbrev pub startup : {State : Type 0} → Resampler State → Audio State
startup r = record {
  device_open = false;
  audio_frequency = 32000;
  device_frequency = 0;
  queue_headroom_frames = 0;
  volume = pos 100;
  window_focused = true;
  mute_unfocused = true;
  resampler = r;
  queue = [];
}

unfoldable pub preferred_device_rate : Sdl → ℕ
preferred_device_rate sdl = elim sdl.default_rate [
  | none ↦ 48000
  | some rate ↦ if rate == 0 then 48000 else rate
]

module _ {State : Type 0} where
  unfoldable pub close_audio_device : Audio State → Audio State
  close_audio_device s = record s { device_open = false; queue = [] }

  -- The volume that a buffer is played at.
  unfoldable pub effective_volume : Audio State → ℕ
  effective_volume s =
      if s.mute_unfocused && not s.window_focused then 0 else clamp_percent s.volume

  unfoldable pub get_frames_remaining : Audio State → ℕ
  get_frames_remaining s =
      if s.device_open
      then (let frames = to_source_frames s.resampler (length s.queue * 2 / 4) in
          if ltb s.queue_headroom_frames frames then frames - s.queue_headroom_frames else 0)
      else 0

  unfoldable pub set_mute_when_unfocused : Audio State → Bool → Audio State
  set_mute_when_unfocused s mute = record s { mute_unfocused = mute }

  -- `samples` that SDL has played.
  abbrev pub play : ℕ → Audio State → Audio State
  play samples s = record s { queue = drop samples s.queue }

module _ {State : Type 0} (filter : Filter State) where
  -- What SDL_OpenAudioDevice answers, and what the function returns.
  unfoldable pub opened : Settings → Audio State → Option ℕ → Audio State × Bool
  opened settings s none = (s, false)
  opened settings s (some freq) = (
    record s {
      device_open = true;
      device_frequency = freq;
      queue_headroom_frames = headroom_frames s.audio_frequency settings.headroom_ms;
      resampler = configure filter s.audio_frequency freq;
    },
    true,
  )

  unfoldable pub open_audio_device : Settings → Sdl → Audio State → Audio State × Bool
  open_audio_device settings sdl s0 =
      let s = close_audio_device s0 in
      if not sdl.initialised
      then (s, false)
      else let wanted : ℕ =
          if settings.resample_in_port then preferred_device_rate sdl else s.audio_frequency in
        opened settings s (sdl.open_device wanted)

  unfoldable pub set_frequency : Settings → Sdl → Audio State → ℕ → Audio State
  set_frequency settings sdl s frequency =
      if frequency == s.audio_frequency && s.device_open
      then s
      else if s.device_open && settings.resample_in_port
      then record s {
        audio_frequency = frequency;
        queue_headroom_frames = headroom_frames frequency settings.headroom_ms;
        resampler = configure filter frequency s.device_frequency;
      }
      else (open_audio_device settings sdl (record s { audio_frequency = frequency })).0

  unfoldable pub queue_samples : Audio State → List ℤ → Audio State
  queue_samples s audio_data =
      if s.device_open
      then (let (r, converted) =
            process filter s.resampler (at_volume (effective_volume s) (unswap audio_data)) in
          record s { resampler = r; queue = s.queue ++ converted })
      else s
