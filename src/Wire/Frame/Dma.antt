-- ===== src/Wire/Frame/Dma.antt =====
-- `__osSiRawStartDma` as the game uses it: a request, and the reply in the same buffer.
use hybrid_heaven_recomp.Prelude.{
  ℕ, zero, suc, ◌+◌, ◌-◌, ◌%◌, ◌^◌, ◌≤◌, ◌<◌, ◌≡◌, ◌≢◌, refl, ◌⊎◌, inl, inr, Bool, true, false,
  List, get_or, arith, ◌==◌, ==_refl, ne→==_false, ltb, lt→ltb, le→ltb_false, Bool-cases, ap, sym,
  ◌∙◌,
}
use hybrid_heaven_recomp.Pak.Format.{block_size}
use hybrid_heaven_recomp.Pak.Store.Invariant.{IsValid}
use hybrid_heaven_recomp.Pak.Store.Blocks.{block}
use hybrid_heaven_recomp.Wire.Memory.{Memory}
use hybrid_heaven_recomp.Wire.Crc.{data_crc}
use hybrid_heaven_recomp.Wire.Frame.{
  Si, exchange, exchange_detect, exchange_store, handle_status, service_from, load_bytes,
  frame_block, is_status, is_pak_frame, handle_pak_block, service_frame, os_si_raw_start_dma,
  cmd_read_pak, cmd_write_pak,
}
use hybrid_heaven_recomp.Wire.Frame.Bytes.{get_or-load_bytes}
use hybrid_heaven_recomp.Wire.Frame.Block.{Holds, handle_pak_block_read, handle_pak_block_write}
use hybrid_heaven_recomp.Wire.Frame.Serve.{StartsAt, serve_at, service_frame-serve_at}

-- `linear < 0x00800000` holds of the addresses in RDRAM's cached segment, and of no other.
linear_in :
    (r5 : ℕ)
    → 0x8000_0000 ≤ r5
    → r5 < 0x8080_0000
    → ltb ((r5 + 2 ^ 32 - 0x8000_0000) % 2 ^ 32) 0x0080_0000 ≡ true
linear_in r5 lo hi = lt→ltb _ _ (omega arith)

linear_out :
    (r5 : ℕ)
    → r5 < 2 ^ 32
    → (r5 < 0x8000_0000) ⊎ (0x8080_0000 ≤ r5)
    → ltb ((r5 + 2 ^ 32 - 0x8000_0000) % 2 ^ 32) 0x0080_0000 ≡ false
linear_out r5 h o = le→ltb_false _ _ (omega arith)

module _ (memory : Memory) where
  open memory use {Mem, load, load-lt}

  -- `pif` lies in RDRAM, and holds a pak command of one kind at `channel`.
  pub record IsRequest (m : Mem) (pif channel cmd tx rx : ℕ) : Type 0 where
    pub low : 0x8000_0000 ≤ pif
    pub high : pif < 0x8080_0000
    pub channel_in : channel < 4
    pub filler : (i : ℕ) → i < channel → load m (pif + i) ≡ 0
    pub dummy : load m (pif + channel) ≡ 0xff
    pub tx_size : load m (pif + channel + 1) ≡ tx
    pub rx_size : load m (pif + channel + 2) ≡ rx
    pub command : load m (pif + channel + 3) ≡ cmd

  abbrev pub IsReadRequest : Mem → ℕ → ℕ → Type 0
  IsReadRequest m pif channel = IsRequest m pif channel cmd_read_pak 0x03 0x21

  abbrev pub IsWriteRequest : Mem → ℕ → ℕ → Type 0
  IsWriteRequest m pif channel = IsRequest m pif channel cmd_write_pak 0x23 0x01

  request-StartsAt :
      {m : Mem} {pif channel cmd tx rx : ℕ}
      → IsRequest m pif channel cmd tx rx
      → StartsAt memory m pif channel
  request-StartsAt r = record { filler = r.filler; first = λ z. absurd (omega (arith, r.dummy, z)) }

  serve_at-read :
      (rumble_on : Bool) (s : Si Mem) (pif channel : ℕ)
      → IsReadRequest s.rdram pif channel
      → serve_at memory rumble_on s pif channel
        ≡ (handle_pak_block memory rumble_on s (pif + channel) channel cmd_read_pak, true)
  unfolding serve_at is_status is_pak_frame
  serve_at-read rumble_on s pif channel r = rw (r.dummy, r.command, r.tx_size, r.rx_size) refl

  serve_at-write :
      (rumble_on : Bool) (s : Si Mem) (pif channel : ℕ)
      → IsWriteRequest s.rdram pif channel
      → serve_at memory rumble_on s pif channel
        ≡ (handle_pak_block memory rumble_on s (pif + channel) channel cmd_write_pak, true)
  unfolding serve_at is_status is_pak_frame
  serve_at-write rumble_on s pif channel r = rw (r.dummy, r.command, r.tx_size, r.rx_size) refl

  messages-exchange :
      (rumble_on is_write : Bool) (s : Si Mem) (port b : ℕ) (bytes : List ℕ)
      → (exchange rumble_on is_write s port b bytes).0.messages ≡ s.messages
  unfolding exchange exchange_detect exchange_store
  messages-exchange rumble_on is_write s port b bytes = ground arith

  messages-handle_pak_block :
      (rumble_on : Bool) (s : Si Mem) (base port cmd : ℕ)
      → (handle_pak_block memory rumble_on s base port cmd).messages ≡ s.messages
  unfolding handle_pak_block
  messages-handle_pak_block rumble_on s base port cmd =
      messages-exchange rumble_on (cmd == cmd_write_pak) s port (frame_block memory s.rdram base) _

  messages-service_from :
      (rumble_on : Bool) (s : Si Mem) (pif n c : ℕ)
      → (service_from memory rumble_on s pif n c).0.messages ≡ s.messages
  unfolding service_from handle_status
  messages-service_from rumble_on s pif zero c = refl
  messages-service_from rumble_on s pif (suc n) c = ground (
    arith,
    messages-service_from rumble_on s pif n (c + 1),
    messages-handle_pak_block rumble_on s (pif + c) c (load s.rdram (pif + c + 3)),
  )

  messages-service_frame :
      (rumble_on : Bool) (s : Si Mem) (pif : ℕ)
      → (service_frame memory rumble_on s pif).0.messages ≡ s.messages
  unfolding service_frame
  messages-service_frame rumble_on s pif = messages-service_from rumble_on s pif 4 0

  -- The read half of a transfer over a buffer in RDRAM serves its frame; every other call leaves
  -- the state alone. Both halves post one completion and report success.
  pub os_si_raw_start_dma-serves :
      (rumble_on : Bool) (s : Si Mem) (r4 r5 : ℕ)
      → r5 < 2 ^ 32
      → ((os_si_raw_start_dma memory rumble_on s r4 r5).0.messages ≡ s.messages + 1)
        × ((os_si_raw_start_dma memory rumble_on s r4 r5).1 ≡ 0)
        × (r4 % 2 ^ 32 ≡ 0
            → 0x8000_0000 ≤ r5
            → r5 < 0x8080_0000
            → (os_si_raw_start_dma memory rumble_on s r4 r5).0
              ≡ record (service_frame memory rumble_on s r5).0 { messages = s.messages + 1 })
        × ((r4 % 2 ^ 32 ≢ 0) ⊎ (r5 < 0x8000_0000) ⊎ (0x8080_0000 ≤ r5)
            → (os_si_raw_start_dma memory rumble_on s r4 r5).0
              ≡ record s { messages = s.messages + 1 })
  unfolding os_si_raw_start_dma
  os_si_raw_start_dma-serves rumble_on s r4 r5 h =
      let kept = messages-service_frame rumble_on s r5 in
      (
        ground (arith, kept),
        refl,
        λ e lo hi.
            rw (e, linear_in r5 lo hi)
              (ap (λ k. record (service_frame memory rumble_on s r5).0 { messages = k + 1 }) kept),
        λ o. elim o [
          | inl ne ↦ rw (ne→==_false (r4 % 2 ^ 32) 0 ne)
          | inr out ↦ elim (Bool-cases (r4 % 2 ^ 32 == 0)) [
            | inl e ↦ rw (e, linear_out r5 h out)
            | inr e ↦ rw e
          ]
        ],
      )

  read_half :
      (rumble_on : Bool) (s : Si Mem) (pif channel cmd tx rx : ℕ)
      → IsRequest s.rdram pif channel cmd tx rx
      → (os_si_raw_start_dma memory rumble_on s 0 pif).0
        ≡ record (serve_at memory rumble_on s pif channel).0 { messages = s.messages + 1 }
  read_half rumble_on s pif channel cmd tx rx r =
      (os_si_raw_start_dma-serves rumble_on s 0 pif (omega (arith, r.high))).2 refl r.low r.high
      ∙ ap (λ out. record out.0 { messages = s.messages + 1 })
          ((service_frame-serve_at memory rumble_on s pif).0 channel r.channel_in
            (request-StartsAt r))

  -- The state after the read half of a pak read, and of a pak write.
  read_served :
      (rumble_on : Bool) (s : Si Mem) (pif channel : ℕ)
      → IsReadRequest s.rdram pif channel
      → (os_si_raw_start_dma memory rumble_on s 0 pif).0
        ≡ record (handle_pak_block memory rumble_on s (pif + channel) channel cmd_read_pak) {
          messages = s.messages + 1;
        }
  read_served rumble_on s pif channel r =
      read_half rumble_on s pif channel cmd_read_pak 0x03 0x21 r
      ∙ ap (λ out. record out.0 { messages = s.messages + 1 })
          (serve_at-read rumble_on s pif channel r)

  write_served :
      (rumble_on : Bool) (s : Si Mem) (pif channel : ℕ)
      → IsWriteRequest s.rdram pif channel
      → (os_si_raw_start_dma memory rumble_on s 0 pif).0
        ≡ record (handle_pak_block memory rumble_on s (pif + channel) channel cmd_write_pak) {
          messages = s.messages + 1;
        }
  write_served rumble_on s pif channel r =
      read_half rumble_on s pif channel cmd_write_pak 0x23 0x01 r
      ∙ ap (λ out. record out.0 { messages = s.messages + 1 })
          (serve_at-write rumble_on s pif channel r)

  -- After a pak write the paks are valid and hold the frame's bytes in its block.
  pak_of_write :
      (rumble_on : Bool) (s : Si Mem) (pif channel : ℕ)
      → IsValid s.paks
      → IsWriteRequest s.rdram pif channel
      → frame_block memory s.rdram (pif + channel) < 0x400
      → let s' = (os_si_raw_start_dma memory rumble_on s 0 pif).0 in
        (block s'.paks channel (frame_block memory s.rdram (pif + channel))
          ≡ load_bytes memory s.rdram (pif + channel + 6) block_size)
        × IsValid s'.paks
        × Holds memory s.rdram s'.rdram
            (pif + channel)
            (load_bytes memory s.rdram (pif + channel + 6) block_size)
  pak_of_write rumble_on s pif channel v w fits =
      let b = frame_block memory s.rdram (pif + channel) in
      let written =
        handle_pak_block_write memory rumble_on s (pif + channel) channel v w.channel_in fits in
      rw (write_served rumble_on s pif channel w)
        (ground (arith, written.1 channel b, ==_refl channel, ==_refl b), written.2, written.0)

  -- A pak write followed by a pak read of the same block on the same channel, from any buffer:
  -- the 32 bytes that were written come back, with the CRC that the write echoed.
  pub read-write :
      (rumble_on : Bool) (s : Si Mem) (pif pif' channel : ℕ) (m : Mem)
      → IsValid s.paks
      → IsWriteRequest s.rdram pif channel
      → frame_block memory s.rdram (pif + channel) < 0x400
      → IsReadRequest m pif' channel
      → frame_block memory m (pif' + channel) ≡ frame_block memory s.rdram (pif + channel)
      → let s' = (os_si_raw_start_dma memory rumble_on s 0 pif).0 in
        let s'' = (os_si_raw_start_dma memory rumble_on (record s' { rdram = m }) 0 pif').0 in
        ((i : ℕ)
          → i < 32
          → load s''.rdram (pif' + channel + 6 + i) ≡ load s.rdram (pif + channel + 6 + i))
        × (load s''.rdram (pif' + channel + 0x26) ≡ load s'.rdram (pif + channel + 0x26))
  read-write rumble_on s pif pif' channel m v w fits r same =
      let base : ℕ = pif + channel in
      let base' : ℕ = pif' + channel in
      let bytes : List ℕ = load_bytes memory s.rdram (base + 6) block_size in
      let s' = (os_si_raw_start_dma memory rumble_on s 0 pif).0 in
      let stored = pak_of_write rumble_on s pif channel v w fits in
      let again : Si Mem = record s' { rdram = m } in
      let reply =
        handle_pak_block_read memory rumble_on again base' channel stored.1 w.channel_in
          (omega (arith, same)) in
      let out : block s'.paks channel (frame_block memory m base') ≡ bytes =
        ap (block s'.paks channel) same ∙ stored.0 in
      rw (read_served rumble_on again pif' channel r) (
        λ i h.
            reply.0.bytes i h
            ∙ (ap (λ bs. get_or bs i 0 % 256) out
                ∙ omega (
                  arith,
                  get_or-load_bytes memory s.rdram (base + 6) block_size i h,
                  load-lt s.rdram (base + 6 + i),
                )),
        reply.0.crc ∙ (ap (λ bs. data_crc bs % 256) out ∙ sym stored.2.crc),
      )
