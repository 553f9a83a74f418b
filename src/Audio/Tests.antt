-- ===== src/Audio/Tests.antt =====
-- Buffers, rates and a device at concrete values.
use hybrid_heaven_recomp.Prelude.{◌≡◌, refl, ℤ, pos, negsuc, Bool, true, false, some, List, [], ◌∷◌}
use hybrid_heaven_recomp.Audio.Sample.{unswap, scale, at_volume}
use hybrid_heaven_recomp.Audio.Rate.{Filter, Resampler}
use hybrid_heaven_recomp.Audio.Device.{
  Sdl, Settings, Audio, startup, opened, open_audio_device, close_audio_device, set_frequency,
  queue_samples,
}
use hybrid_heaven_recomp.Audio.Device.Tuned.{IsTuned}
use hybrid_heaven_recomp.Audio.Device.Run.{
  Event, frequency_set, buffer, focus, run, apply, run-Tuned,
}

abbrev three_samples : List ℤ
three_samples = pos 1000 ∷ negsuc 2999 ∷ pos 7 ∷ []

-- Half of -3000 is -1500, and half of 7 is 3.
at_half : at_volume 50 (unswap three_samples) ≡ negsuc 1499 ∷ pos 500 ∷ pos 3 ∷ []
unfolding at_volume scale unswap
at_half = refl

-- A filter that drops every buffer.
abbrev dropping : Filter Bool
dropping = record { fresh = λ src dst. true; convert = λ state samples. (state, []) }

abbrev settings : Settings
settings = record { resample_in_port = true; headroom_ms = 30 }

-- A device that opens at 48000 Hz.
abbrev sdl : Sdl
sdl = record { initialised = true; default_rate = some 48000; open_device = λ freq. some 48000 }

abbrev unconfigured : Resampler Bool
unconfigured = record { src = 0; dst = 0; passthrough = true; state = false }

abbrev some_events : List Event
some_events =
    frequency_set sdl 32000
    ∷ buffer three_samples
    ∷ focus false
    ∷ frequency_set sdl 48000
    ∷ buffer three_samples
    ∷ []

run_opens : (run dropping settings (startup unconfigured) some_events).device_open ≡ true
unfolding run apply set_frequency open_audio_device opened close_audio_device queue_samples
run_opens = refl

run-Tuned_example : IsTuned settings (run dropping settings (startup unconfigured) some_events)
run-Tuned_example = run-Tuned dropping settings unconfigured some_events run_opens

-- At 48000 Hz on both sides, four frames are queued and the headroom is one.
abbrev playing : Audio Bool
playing = record (startup unconfigured) {
  device_open = true;
  audio_frequency = 48000;
  device_frequency = 48000;
  queue_headroom_frames = 1;
  queue = pos 1 ∷ pos 2 ∷ pos 3 ∷ pos 4 ∷ pos 5 ∷ pos 6 ∷ pos 7 ∷ pos 8 ∷ [];
}
