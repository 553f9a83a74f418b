-- ===== src/Wire/Frame/Status.antt =====
-- The reply to a status query.
use hybrid_heaven_recomp.Prelude.{
  Bool, ℕ, ◌+◌, ◌<◌, ◌≡◌, refl, ◌⊎◌, true, ◌∙◌, arith, ◌==◌, if◌then◌else◌,
}
use hybrid_heaven_recomp.Pak.Store.{present}
use hybrid_heaven_recomp.Wire.Memory.{Memory}
use hybrid_heaven_recomp.Wire.Frame.{Si, is_status, handle_status, service_frame}
use hybrid_heaven_recomp.Wire.Frame.Bytes.{load-store_ne, load-store_self}
use hybrid_heaven_recomp.Wire.Frame.Serve.{StartsAt, serve_at, service_frame-serve_at}

module _ (memory : Memory) where
  open memory use {Mem, load, store}

  pub record IsStatusRequest (m : Mem) (pif channel : ℕ) : Type 0 where
    pub channel_in : channel < 4
    pub filler : (i : ℕ) → i < channel → load m (pif + i) ≡ 0
    pub tx_size : load m (pif + channel) ≡ 0x01
    pub rx_size : load m (pif + channel + 1) ≡ 0x03
    pub command : load m (pif + channel + 2) ≡ 0x00

  serve_at-status :
      (rumble_on : Bool) (s : Si Mem) (pif channel : ℕ)
      → IsStatusRequest s.rdram pif channel
      → serve_at memory rumble_on s pif channel
        ≡ (handle_status memory s (pif + channel) channel, true)
  unfolding serve_at is_status
  serve_at-status rumble_on s pif channel r = rw (r.tx_size, r.rx_size, r.command) refl

  handle_status_reply :
      (s : Si Mem) (base port : ℕ)
      → let m = (handle_status memory s base port).rdram in
        (load m (base + 3) ≡ 0x05)
        × (load m (base + 4) ≡ 0x00)
        × (load m (base + 5) ≡ (if port == 0 then 0x01 else 0x00))
        × ((a : ℕ) → (a < base + 3) ⊎ (base + 5 < a) → load m a ≡ load s.rdram a)
  unfolding handle_status present
  handle_status_reply s base port =
      let status : ℕ = if port == 0 then 0x01 else 0x00 in
      let m₁ = store s.rdram (base + 3) 5 in
      let m₂ = store m₁ (base + 4) 0 in
      let last = load-store_ne memory m₂ (base + 5) status in
      let second = load-store_ne memory m₁ (base + 4) 0 in
      (
        last (base + 3) (omega arith)
            ∙ (second (base + 3) (omega arith) ∙ load-store_self memory s.rdram (base + 3) 5),
        last (base + 4) (omega arith) ∙ load-store_self memory m₁ (base + 4) 0,
        load-store_self memory m₂ (base + 5) status ∙ ground arith,
        λ a o.
            last a (omega arith)
            ∙ (second a (omega arith) ∙ load-store_ne memory s.rdram (base + 3) 5 a (omega arith)),
      )

  -- A status query is recognised on any channel and answered with the type of a standard controller;
  -- a card is reported on channel 0 alone. Only the three reply bytes of RDRAM change, and neither
  -- the paks, the identify register nor the motor.
  pub service_frame-status :
      (rumble_on : Bool) (s : Si Mem) (pif channel : ℕ)
      → IsStatusRequest s.rdram pif channel
      → let (s', served) = service_frame memory rumble_on s pif in
        (served ≡ true)
        × (load s'.rdram (pif + channel + 3) ≡ 0x05)
        × (load s'.rdram (pif + channel + 4) ≡ 0x00)
        × (load s'.rdram (pif + channel + 5) ≡ (if channel == 0 then 0x01 else 0x00))
        × ((a : ℕ)
            → (a < pif + channel + 3) ⊎ (pif + channel + 5 < a)
            → load s'.rdram a ≡ load s.rdram a)
        × (s' ≡ record s { rdram = s'.rdram })
  service_frame-status rumble_on s pif channel r =
      let reply = handle_status_reply s (pif + channel) channel in
      let starts : StartsAt memory s.rdram pif channel = record {
        filler = r.filler;
        first = λ z. absurd (omega (arith, r.tx_size, z));
      } in
      rw
        ((service_frame-serve_at memory rumble_on s pif).0 channel r.channel_in starts
          ∙ serve_at-status rumble_on s pif channel r)
        (refl, reply.0, reply.1, reply.2, reply.3, unfold handle_status in refl)
