-- ===== src/Wire/Frame.antt =====
-- src/si_pak.cpp: the transactions on the joybus, and `__osSiRawStartDma`. The trace output of
-- HH_PAKTRACE is not modelled. The proofs are in the modules below.
pub mod Bytes
pub mod Block
pub mod Identify
pub mod Serve
pub mod Status
pub mod Dma
use hybrid_heaven_recomp.Prelude.{
  ℕ, zero, suc, ◌+◌, ◌-◌, ◌*◌, ◌/◌, ◌%◌, ◌^◌, Bool, true, false, not, ◌&&◌, ◌||◌, Option, none,
  some, List, [], ◌∷◌, ◌++◌, get_or, replicate, ◌==◌, ltb, leb, if◌then◌else◌, update, ℤ, pos,
}
use hybrid_heaven_recomp.Pak.Format.{block_size}
use hybrid_heaven_recomp.Pak.Store
use hybrid_heaven_recomp.Pak.Store.{present, read_block, write_block}
use hybrid_heaven_recomp.Wire.Memory.{Memory}
use hybrid_heaven_recomp.Wire.Crc.{data_crc}

abbrev pub cmd_request_status : ℕ
cmd_request_status = 0

abbrev pub cmd_read_pak : ℕ
cmd_read_pak = 2

abbrev pub cmd_write_pak : ℕ
cmd_write_pak = 3

abbrev pub cont_type_normal : ℕ
cont_type_normal = 0x0005

abbrev pub cont_card_on : ℕ
cont_card_on = 0x01

abbrev pub block_detect : ℕ
block_detect = 0x400

abbrev pub block_motor : ℕ
block_motor = 0x600

abbrev pub rumble_identify : ℕ
rumble_identify = 0x80

-- What the calls change: RDRAM, the paks, `g_detect_cell`, the calls of `set_pak_rumble` in order,
-- and the number of SI completion messages sent.
pub record Si (Mem : Type 0) : Type 0 where
  pub rdram : Mem
  pub paks : Store.Store
  pub detect_cell : ℕ → List ℕ
  pub rumble : List (ℕ × Bool)
  pub messages : ℕ

-- `rumble_pak_enabled`, from the value of HH_NO_RUMBLE_PAK in the environment.
unfoldable pub rumble_pak_enabled : Option (List ℕ) → Bool
rumble_pak_enabled none = true
rumble_pak_enabled (some []) = true
rumble_pak_enabled (some (c ∷ cs)) = c == b'0'

module _ {Mem : Type 0} where
  -- What one block of the slot answers: the new state, and `data` after the exchange.
  unfoldable pub exchange_detect : Bool → Bool → Si Mem → ℕ → List ℕ → Si Mem × List ℕ
  exchange_detect rumble_on is_write s port bytes =
      if is_write then (record s { detect_cell = update s.detect_cell port bytes }, bytes) else (
        s,
        if rumble_on
              && present (pos port)
              && leb rumble_identify (get_or (s.detect_cell port) (block_size - 1) 0)
            then replicate block_size rumble_identify
            else s.detect_cell port,
      )

  -- A refused read leaves `data` as it was.
  unfoldable pub exchange_store : Bool → Si Mem → ℕ → ℕ → List ℕ → Si Mem × List ℕ
  exchange_store is_write s port block bytes =
      if is_write
      then (record s { paks = (write_block s.paks (pos port) (pos block) bytes).0 }, bytes)
      else (let (paks', out) = read_block s.paks (pos port) (pos block) in
          (record s { paks = paks' }, elim out [ none ↦ bytes | some read ↦ read ]))

  unfoldable pub exchange : Bool → Bool → Si Mem → ℕ → ℕ → List ℕ → Si Mem × List ℕ
  exchange rumble_on is_write s port block bytes =
      if block == block_detect
      then exchange_detect rumble_on is_write s port bytes
      else if ltb block block_detect
      then exchange_store is_write s port block bytes
      else if block == block_motor && is_write && rumble_on && present (pos port)
      then (record s { rumble = s.rumble ++ (port, not (get_or bytes 0 0 == 0)) ∷ [] }, bytes)
      else (s, bytes)

module _ (memory : Memory) where
  open memory use {Mem, load, store}

  -- The loops over the 32 data bytes of a frame.
  unfoldable pub load_bytes : Mem → ℕ → ℕ → List ℕ
  load_bytes m at zero = []
  load_bytes m at (suc n) = load m at ∷ load_bytes m (at + 1) n

  unfoldable pub store_bytes : Mem → ℕ → List ℕ → Mem
  store_bytes m at [] = m
  store_bytes m at (b ∷ bs) = store_bytes (store m at b) (at + 1) bs

  -- The low byte of the shifted high byte is clear, so `|` is `+`.
  abbrev pub frame_block : Mem → ℕ → ℕ
  frame_block m base = (load m (base + 4) * 256 + load m (base + 5)) / 2 ^ 5

  unfoldable pub handle_pak_block : Bool → Si Mem → ℕ → ℕ → ℕ → Si Mem
  handle_pak_block rumble_on s base port cmd =
      let is_write = cmd == cmd_write_pak in
      let bytes =
        if is_write then load_bytes s.rdram (base + 6) block_size else replicate block_size 0 in
      let (s', out) = exchange rumble_on is_write s port (frame_block s.rdram base) bytes in
      let replied = if is_write then s'.rdram else store_bytes s'.rdram (base + 6) out in
      record s' { rdram = store replied (base + 0x26) (data_crc out) }

  unfoldable pub handle_status : Si Mem → ℕ → ℕ → Si Mem
  handle_status s base port =
      let typed =
        store (store s.rdram (base + 3) (cont_type_normal % 256)) (base + 4)
          (cont_type_normal / 256 % 256) in
      record s {
        rdram = store typed (base + 5) (if present (pos port) then cont_card_on else 0x00);
      }

  -- The `channel` bytes of filler are zero.
  unfoldable pub filler_ok : Mem → ℕ → ℕ → Bool
  filler_ok m pif zero = true
  filler_ok m pif (suc channel) = filler_ok m pif channel && load m (pif + channel) == 0x00

  unfoldable pub is_status : Mem → ℕ → Bool
  is_status m base =
      load m base == 0x01 && load m (base + 1) == 0x03 && load m (base + 2) == cmd_request_status

  unfoldable pub is_pak_frame : Mem → ℕ → Bool
  is_pak_frame m base =
      load m base == 0xff
      && (load m (base + 3) == cmd_read_pak
            && load m (base + 1) == 0x03
            && load m (base + 2) == 0x21
          || load m (base + 3) == cmd_write_pak
            && load m (base + 1) == 0x23
            && load m (base + 2) == 0x01)

  -- The rounds left, and the channel. The result tells whether a frame was recognised.
  unfoldable pub service_from : Bool → Si Mem → ℕ → ℕ → ℕ → Si Mem × Bool
  service_from rumble_on s pif zero channel = (s, false)
  service_from rumble_on s pif (suc n) channel =
      let base = pif + channel in
      let rest = service_from rumble_on s pif n (channel + 1) in
      if not (filler_ok s.rdram pif channel)
      then (s, false)
      else if is_status s.rdram base
      then (handle_status s base channel, true)
      else if is_pak_frame s.rdram base
      then (handle_pak_block rumble_on s base channel (load s.rdram (base + 3)), true)
      else rest

  unfoldable pub service_frame : Bool → Si Mem → ℕ → Si Mem × Bool
  service_frame rumble_on s pif = service_from rumble_on s pif 4 0

  -- The low words of `r4` and `r5`; the result is the state and `r2`. The 64-bit address that the
  -- memory macros take is the sign extension of `r5`, which names the same byte.
  unfoldable pub os_si_raw_start_dma : Bool → Si Mem → ℕ → ℕ → Si Mem × ℕ
  os_si_raw_start_dma rumble_on s r4 r5 =
      let linear = (r5 + 2 ^ 32 - 0x8000_0000) % 2 ^ 32 in
      let served =
        if r4 % 2 ^ 32 == 0 && ltb linear 0x0080_0000
        then (service_frame rumble_on s r5).0
        else s in
      (record served { messages = served.messages + 1 }, 0)
