-- ===== src/Audio/Device/Run.antt =====
-- The rates and the headroom over any run of events.
use hybrid_heaven_recomp.Prelude.{ℕ, ◌≡◌, refl, ap, sym, ◌∙◌, ℤ, Bool, true, List, [], ◌∷◌}
use hybrid_heaven_recomp.Audio.Rate.{Filter, Resampler}
use hybrid_heaven_recomp.Audio.Device.{
  Sdl, Settings, Audio, startup, set_mute_when_unfocused, play, set_frequency, queue_samples,
}
use hybrid_heaven_recomp.Audio.Device.Tuned.{
  IsTuned, Tuned, set_frequency-Tuned, queue_samples-Tuned,
}

-- What happens to the device: the runtime's calls, the settings, the focus, and SDL playing.
pub data Event : Type 0 where
  frequency_set : Sdl → ℕ → Event
  buffer : List ℤ → Event
  played : ℕ → Event
  focus : Bool → Event
  mute : Bool → Event
  volume_set : ℤ → Event

module _ {State : Type 0} (filter : Filter State) (settings : Settings) where
  unfoldable pub apply : Audio State → Event → Audio State
  apply s (frequency_set sdl frequency) = set_frequency filter settings sdl s frequency
  apply s (buffer samples) = queue_samples filter s samples
  apply s (played samples) = play samples s
  apply s (focus focused) = record s { window_focused = focused }
  apply s (mute b) = set_mute_when_unfocused s b
  apply s (volume_set v) = record s { volume = v }

  unfoldable pub run : Audio State → List Event → Audio State
  run s [] = s
  run s (e ∷ es) = run (apply s e) es

  same-Tuned :
      (s t : Audio State)
      → t.device_open ≡ s.device_open
      → t.resampler ≡ s.resampler
      → t.audio_frequency ≡ s.audio_frequency
      → t.device_frequency ≡ s.device_frequency
      → t.queue_headroom_frames ≡ s.queue_headroom_frames
      → Tuned settings s
      → Tuned settings t
  same-Tuned s t o r a d h x e =
      let y = x (sym o ∙ e) in
      record {
        from_game = ap (λ (q : Resampler State). q.src) r ∙ (y.from_game ∙ sym a);
        to_device = ap (λ (q : Resampler State). q.dst) r ∙ (y.to_device ∙ sym d);
        direct = rw (r, a, d) y.direct;
        headroom = rw (h, a) y.headroom;
      }

  apply-Tuned : (s : Audio State) (e : Event) → Tuned settings s → Tuned settings (apply s e)
  unfolding apply set_mute_when_unfocused
  apply-Tuned s (frequency_set sdl frequency) t =
      (set_frequency-Tuned filter settings sdl s frequency t).0
  apply-Tuned s (buffer samples) t = queue_samples-Tuned filter settings s samples t
  apply-Tuned s (played samples) t = same-Tuned s _ refl refl refl refl refl t
  apply-Tuned s (focus focused) t = same-Tuned s _ refl refl refl refl refl t
  apply-Tuned s (mute b) t = same-Tuned s _ refl refl refl refl refl t
  apply-Tuned s (volume_set v) t = same-Tuned s _ refl refl refl refl refl t

  run_from-Tuned :
      (s : Audio State) (es : List Event) → Tuned settings s → Tuned settings (run s es)
  unfolding run
  run_from-Tuned s [] t = t
  run_from-Tuned s (e ∷ es) t = run_from-Tuned (apply s e) es (apply-Tuned s e t)

  -- From startup, after any events and whatever SDL answers: if a device is open, the resampler
  -- converts from the game's rate to the device's, directly where they are the same or one is 0, and
  -- the headroom is the one of the game's rate.
  pub run-Tuned :
      (r : Resampler State) (es : List Event)
      → (run (startup r) es).device_open ≡ true
      → IsTuned settings (run (startup r) es)
  run-Tuned r es = run_from-Tuned (startup r) es (λ e. cc)
