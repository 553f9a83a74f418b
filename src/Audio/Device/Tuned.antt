-- ===== src/Audio/Device/Tuned.antt =====
-- The rates that the resampler converts between, and the headroom, follow what the game asks for.
use hybrid_heaven_recomp.Prelude.{
  ℕ, ◌≡◌, refl, ap, ◌∙◌, inl, inr, ℤ, Bool, true, false, not, ◌&&◌, ◌||◌, Option, none, some, List,
  ◌++◌, ◌==◌, if◌then◌else◌, arith, Bool-cases,
}
use hybrid_heaven_recomp.Audio.Sample.{unswap, at_volume}
use hybrid_heaven_recomp.Audio.Rate.{Filter, Resampler, configure, process, headroom_frames}
use hybrid_heaven_recomp.Audio.Device.{
  Sdl, Settings, Audio, preferred_device_rate, close_audio_device, effective_volume, opened,
  open_audio_device, set_frequency, queue_samples,
}

module _ {State : Type 0} where
  -- With a device open, the resampler converts from the game's rate to the device's, and the headroom
  -- is the one of the game's rate.
  pub record IsTuned (settings : Settings) (s : Audio State) : Type 0 where
    pub from_game : s.resampler.src ≡ s.audio_frequency
    pub to_device : s.resampler.dst ≡ s.device_frequency
    pub direct : s.resampler.passthrough ≡ (
        s.audio_frequency == 0
        || s.device_frequency == 0
        || s.audio_frequency == s.device_frequency)
    pub headroom : s.queue_headroom_frames ≡ headroom_frames s.audio_frequency settings.headroom_ms

  abbrev pub Tuned : Settings → Audio State → Type 0
  Tuned settings s = s.device_open ≡ true → IsTuned settings s

module _ {State : Type 0} (filter : Filter State) (settings : Settings) where
  closed-Tuned : (s : Audio State) → Tuned settings (close_audio_device s)
  unfolding close_audio_device
  closed-Tuned s e = cc

  configured-IsTuned :
      (s t : Audio State)
      → t.resampler ≡ configure filter t.audio_frequency t.device_frequency
      → t.queue_headroom_frames ≡ headroom_frames t.audio_frequency settings.headroom_ms
      → IsTuned settings t
  unfolding configure
  configured-IsTuned s t r h = record {
    from_game = ap (λ (x : Resampler State). x.src) r;
    to_device = ap (λ (x : Resampler State). x.dst) r;
    direct = ap (λ (x : Resampler State). x.passthrough) r;
    headroom = h;
  }

  opened-Tuned :
      (s : Audio State) (answer : Option ℕ)
      → Tuned settings s
      → Tuned settings (opened filter settings s answer).0
  unfolding opened
  opened-Tuned s none t e = t e
  opened-Tuned s (some freq) t e =
      configured-IsTuned s (opened filter settings s (some freq)).0 refl refl

  open_audio_device-Tuned :
      (sdl : Sdl) (s : Audio State) → Tuned settings (open_audio_device filter settings sdl s).0
  unfolding open_audio_device
  open_audio_device-Tuned sdl s =
      let wanted : ℕ =
        if settings.resample_in_port
        then preferred_device_rate sdl
        else (close_audio_device s).audio_frequency in
      go sdl.initialised wanted
    where
      go :
          (b : Bool) (wanted : ℕ)
          → Tuned settings
              (if not b
                then (close_audio_device s, false)
                else opened filter settings (close_audio_device s) (sdl.open_device wanted)).0
      go false wanted = closed-Tuned s
      go true wanted = opened-Tuned (close_audio_device s) (sdl.open_device wanted) (closed-Tuned s)

  opened-frequency :
      (s : Audio State) (answer : Option ℕ)
      → (opened filter settings s answer).0.audio_frequency ≡ s.audio_frequency
  unfolding opened
  opened-frequency s none = refl
  opened-frequency s (some freq) = refl

  open_audio_device-frequency :
      (sdl : Sdl) (s : Audio State)
      → (open_audio_device filter settings sdl s).0.audio_frequency ≡ s.audio_frequency
  unfolding open_audio_device close_audio_device
  open_audio_device-frequency sdl s =
      let wanted : ℕ =
        if settings.resample_in_port then preferred_device_rate sdl else s.audio_frequency in
      go sdl.initialised wanted
    where
      go :
          (b : Bool) (wanted : ℕ)
          → (if not b
              then (close_audio_device s, false)
              else opened filter settings
                  (close_audio_device s)
                  (sdl.open_device wanted)).0.audio_frequency
            ≡ s.audio_frequency
      go false wanted = refl
      go true wanted = opened-frequency (close_audio_device s) (sdl.open_device wanted)

  retuned-Tuned :
      (s : Audio State) (frequency : ℕ)
      → Tuned settings (record s {
        audio_frequency = frequency;
        queue_headroom_frames = headroom_frames frequency settings.headroom_ms;
        resampler = configure filter frequency s.device_frequency;
      })
  retuned-Tuned s frequency e = configured-IsTuned s _ refl refl

  -- The game's rate is then the one asked for, also where no device opens.
  pub set_frequency-Tuned :
      (sdl : Sdl) (s : Audio State) (frequency : ℕ)
      → Tuned settings s
      → Tuned settings (set_frequency filter settings sdl s frequency)
        × ((set_frequency filter settings sdl s frequency).audio_frequency ≡ frequency)
  unfolding set_frequency
  set_frequency-Tuned sdl s frequency t =
      elim (Bool-cases (frequency == s.audio_frequency && s.device_open)) [
        | inl e ↦ let same : s.audio_frequency ≡ frequency = ground arith in rw e (t, same)
        | inr e ↦ elim (Bool-cases (s.device_open && settings.resample_in_port)) [
          | inl e' ↦ rw (e, e') (retuned-Tuned s frequency, refl)
          | inr e' ↦
              rw (e, e')
                (
                  open_audio_device-Tuned sdl (record s { audio_frequency = frequency }),
                  open_audio_device-frequency sdl (record s { audio_frequency = frequency }),
                )
        ]
      ]

  process-rates :
      (r : Resampler State) (samples : List ℤ)
      → let r' = (process filter r samples).0 in
        (r'.src ≡ r.src) × (r'.dst ≡ r.dst) × (r'.passthrough ≡ r.passthrough)
  unfolding process
  process-rates r samples = go r.passthrough
    where
      go :
          (b : Bool)
          → let converted : Resampler State × List ℤ =
              if b
              then (r, samples)
              else (let (state', out) = filter.convert r.state samples in
                  (record r { state = state' }, out)) in
            (converted.0.src ≡ r.src)
            × (converted.0.dst ≡ r.dst)
            × (converted.0.passthrough ≡ r.passthrough)
      go true = (refl, refl, refl)
      go false = (refl, refl, refl)

  queued-Tuned :
      (s : Audio State) (samples : List ℤ)
      → Tuned settings s
      → let (r, out) = process filter s.resampler samples in
        Tuned settings (record s { resampler = r; queue = s.queue ++ out })
  queued-Tuned s samples t e =
      let (src, dst, direct) = process-rates s.resampler samples in
      let x = t e in
      record {
        from_game = src ∙ x.from_game;
        to_device = dst ∙ x.to_device;
        direct = direct ∙ x.direct;
        headroom = x.headroom;
      }

  either-Tuned :
      (b : Bool) (s t : Audio State)
      → Tuned settings s
      → Tuned settings t
      → Tuned settings (if b then s else t)
  either-Tuned true s t x y = x
  either-Tuned false s t x y = y

  pub queue_samples-Tuned :
      (s : Audio State) (samples : List ℤ)
      → Tuned settings s
      → Tuned settings (queue_samples filter s samples)
  unfolding queue_samples
  queue_samples-Tuned s samples t =
      let buffer = at_volume (effective_volume s) (unswap samples) in
      let (r, out) = process filter s.resampler buffer in
      either-Tuned s.device_open (record s { resampler = r; queue = s.queue ++ out }) s
        (queued-Tuned s buffer t) t
