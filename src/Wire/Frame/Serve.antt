-- ===== src/Wire/Frame/Serve.antt =====
-- Which frame of PIF RAM is served.
use hybrid_heaven_recomp.Prelude.{
  ℕ, zero, suc, ◌+◌, ◌≤◌, ◌<◌, ◌≡◌, ◌≢◌, refl, Bool, true, false, ap, ◌∙◌, arith, ne→==_false,
  if◌then◌else◌,
}
use native.Mathlib.Decide.{ℕ_discrete}
use hybrid_heaven_recomp.Wire.Memory.{Memory}
use hybrid_heaven_recomp.Wire.Frame.{
  Si, filler_ok, is_status, is_pak_frame, handle_status, handle_pak_block, service_from,
  service_frame,
}

module _ (memory : Memory) where
  open memory use {Mem, load}

  -- The first byte that is not zero stands at `channel`.
  pub record StartsAt (m : Mem) (pif channel : ℕ) : Type 0 where
    pub filler : (i : ℕ) → i < channel → load m (pif + i) ≡ 0
    pub first : load m (pif + channel) ≢ 0

  -- What is done with the block at one channel.
  unfoldable pub serve_at : Bool → Si Mem → ℕ → ℕ → Si Mem × Bool
  serve_at rumble_on s pif channel =
      let base = pif + channel in
      if is_status memory s.rdram base
      then (handle_status memory s base channel, true)
      else if is_pak_frame memory s.rdram base
      then (handle_pak_block memory rumble_on s base channel (load s.rdram (base + 3)), true)
      else (s, false)

  filler_ok_zero :
      (m : Mem) (pif n : ℕ)
      → ((i : ℕ) → i < n → load m (pif + i) ≡ 0)
      → filler_ok memory m pif n ≡ true
  unfolding filler_ok
  filler_ok_zero m pif zero h = refl
  filler_ok_zero m pif (suc n) h =
      ground (arith, filler_ok_zero m pif n (λ i p. h i (omega arith)), h n (omega arith))

  filler_ok_stop :
      (m : Mem) (pif c n : ℕ) → load m (pif + c) ≢ 0 → c < n → filler_ok memory m pif n ≡ false
  unfolding filler_ok
  filler_ok_stop m pif c zero h p = absurd (omega arith)
  filler_ok_stop m pif c (suc n) h p = elim (ℕ_discrete c n) [
    | yes e ↦
        let h' : load m (pif + n) ≢ 0 = λ z. h (ap (λ k. load m (pif + k)) e ∙ z) in
        ground (arith, ne→==_false (load m (pif + n)) 0 h')
    | no ne ↦ ground (arith, filler_ok_stop m pif c n h (omega arith))
  ]

  zero-neither :
      (m : Mem) (base : ℕ)
      → load m base ≡ 0
      → (is_status memory m base ≡ false) × (is_pak_frame memory m base ≡ false)
  unfolding is_status is_pak_frame
  zero-neither m base h = ground arith

  -- Past the first byte that is not zero no channel is looked at.
  service_from_stop :
      (rumble_on : Bool) (s : Si Mem) (pif d n c : ℕ)
      → load s.rdram (pif + d) ≢ 0
      → d < c
      → service_from memory rumble_on s pif n c ≡ (s, false)
  unfolding service_from
  service_from_stop rumble_on s pif d zero c first h = refl
  service_from_stop rumble_on s pif d (suc n) c first h =
      rw (filler_ok_stop s.rdram pif d c first h)

  service_from-serve :
      (rumble_on : Bool) (s : Si Mem) (pif d n c : ℕ)
      → StartsAt s.rdram pif d
      → c ≤ d
      → d < c + n
      → service_from memory rumble_on s pif n c ≡ serve_at rumble_on s pif d
  unfolding service_from serve_at
  service_from-serve rumble_on s pif d zero c st lo hi = absurd (omega arith)
  service_from-serve rumble_on s pif d (suc n) c st lo hi = elim (ℕ_discrete c d) [
    | yes e ↦ rw (← e) (
        rw
          (
            filler_ok_zero s.rdram pif c (λ i p. st.filler i (omega arith)),
            service_from_stop rumble_on s pif d n (c + 1) st.first (omega arith),
          )
          refl)
    | no ne ↦
        let none_here = zero-neither s.rdram (pif + c) (st.filler c (omega arith)) in
        rw
          (
            filler_ok_zero s.rdram pif c (λ i p. st.filler i (omega arith)),
            none_here.0,
            none_here.1,
          )
          (service_from-serve rumble_on s pif d n (c + 1) st (omega arith) (omega arith))
  ]

  service_from_zero :
      (rumble_on : Bool) (s : Si Mem) (pif n c : ℕ)
      → ((i : ℕ) → i < c + n → load s.rdram (pif + i) ≡ 0)
      → service_from memory rumble_on s pif n c ≡ (s, false)
  unfolding service_from
  service_from_zero rumble_on s pif zero c h = refl
  service_from_zero rumble_on s pif (suc n) c h =
      let none_here = zero-neither s.rdram (pif + c) (h c (omega arith)) in
      rw (filler_ok_zero s.rdram pif c (λ i p. h i (omega arith)), none_here.0, none_here.1)
        (service_from_zero rumble_on s pif n (c + 1) (λ i p. h i (omega arith)))

  service_from-unrecognised :
      (rumble_on : Bool) (s : Si Mem) (pif n c : ℕ)
      → (service_from memory rumble_on s pif n c).1 ≡ false
      → (service_from memory rumble_on s pif n c).0 ≡ s
  unfolding service_from
  service_from-unrecognised rumble_on s pif zero c h = refl
  service_from-unrecognised rumble_on s pif (suc n) c h =
      ground (arith, service_from-unrecognised rumble_on s pif n (c + 1))

  -- The frame is served at the channel of the first byte of PIF RAM that is not zero, as a status
  -- query or a pak transaction, whichever is there, and at no other; if the first four bytes are
  -- zero, or if neither is there, the frame is not recognised and nothing changes.
  pub service_frame-serve_at :
      (rumble_on : Bool) (s : Si Mem) (pif : ℕ)
      → ((channel : ℕ)
          → channel < 4
          → StartsAt s.rdram pif channel
          → service_frame memory rumble_on s pif ≡ serve_at rumble_on s pif channel)
        × (((i : ℕ) → i < 4 → load s.rdram (pif + i) ≡ 0)
            → service_frame memory rumble_on s pif ≡ (s, false))
        × ((service_frame memory rumble_on s pif).1 ≡ false
            → (service_frame memory rumble_on s pif).0 ≡ s)
  unfolding service_frame
  service_frame-serve_at rumble_on s pif = (
    λ channel h st. service_from-serve rumble_on s pif channel 4 0 st (omega arith) (omega arith),
    λ h. service_from_zero rumble_on s pif 4 0 (λ i p. h i (omega arith)),
    λ e. service_from-unrecognised rumble_on s pif 4 0 e,
  )
