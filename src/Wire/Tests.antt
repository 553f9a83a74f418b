-- ===== src/Wire/Tests.antt =====
-- Frames served on a small memory, and the theorems of the wire at concrete inputs.
use hybrid_heaven_recomp.Prelude.{
  ℕ, ◌+◌, ◌-◌, ◌%◌, ◌≤◌, ◌<◌, ◌≡◌, ◌≢◌, refl, ◌⊎◌, true, false, none, some, List, [], ◌∷◌, ◌++◌,
  get_or, replicate, arith, leb, if◌then◌else◌,
}
use hybrid_heaven_recomp.Pak.Format.{pak_size}
use hybrid_heaven_recomp.Pak.Disk.{Disk}
use hybrid_heaven_recomp.Pak.Store.{initial}
use hybrid_heaven_recomp.Pak.Store.Invariant.{initial-IsValid}
use hybrid_heaven_recomp.Wire.Memory.{function_memory}
use hybrid_heaven_recomp.Wire.Crc.{data_crc}
use hybrid_heaven_recomp.Wire.Crc.Detects.{data_crc_detects}
use hybrid_heaven_recomp.Wire.Frame.{
  Si, exchange, service_frame, os_si_raw_start_dma, rumble_pak_enabled, block_detect,
}
use hybrid_heaven_recomp.Wire.Frame.Identify.{exchange-identify}
use hybrid_heaven_recomp.Wire.Frame.Serve.{StartsAt, serve_at, service_frame-serve_at}
use hybrid_heaven_recomp.Wire.Frame.Dma.{
  IsReadRequest, IsWriteRequest, os_si_raw_start_dma-serves, read-write,
}

abbrev blank_disk : Disk
blank_disk = record {
  content = λ p. none;
  readable = λ p. true;
  writable = λ p. true;
  room = λ p. pak_size;
}

-- Memory that is zero but for `bytes` at `pif`.
abbrev holding : ℕ → List ℕ → ℕ → ℕ
holding pif bytes a = if leb pif a then get_or bytes (a - pif) 0 else 0

abbrev over : (ℕ → ℕ) → Si (ℕ → ℕ)
over m = record {
  rdram = m;
  paks = initial blank_disk;
  detect_cell = λ p. replicate 32 0;
  rumble = [];
  messages = 0;
}

-- Block 5 is address 0x00A0.
abbrev write_frame : List ℕ
write_frame = 0xff ∷ 0x23 ∷ 0x01 ∷ 0x03 ∷ 0x00 ∷ 0xa7 ∷ replicate 32 b'x'

abbrev read_frame : List ℕ
read_frame = 0xff ∷ 0x03 ∷ 0x21 ∷ 0x02 ∷ 0x00 ∷ 0xa7 ∷ []

abbrev pif : ℕ
pif = 0x8003_0000

abbrev writing : Si (ℕ → ℕ)
writing = over (holding pif write_frame)

-- On channel 1, one byte of filler comes first.
abbrev reading : Si (ℕ → ℕ)
reading = over (holding pif (0 ∷ read_frame))

crc_of_zeroes : data_crc (replicate 32 0) ≡ 0
unfolding data_crc
crc_of_zeroes = refl

crc_of_letter : data_crc (replicate 31 0 ++ b'x' ∷ []) ≡ data_crc (b'x' ∷ [])
unfolding data_crc
crc_of_letter = refl

rumble_disabled : rumble_pak_enabled (some (b'1' ∷ [])) ≡ false
unfolding rumble_pak_enabled
rumble_disabled = refl

data_crc_detects_example :
    (data_crc (1 ∷ 2 ∷ 3 ∷ []) < 256) × (data_crc (1 ∷ 2 ∷ 3 ∷ []) ≢ data_crc (1 ∷ 7 ∷ 3 ∷ []))
data_crc_detects_example =
    data_crc_detects (1 ∷ []) 2 7 (3 ∷ []) (omega arith) (omega arith) (omega arith) (omega arith)
      (omega arith)

exchange-identify_example :
    let s = (exchange true true writing 0 block_detect (replicate 32 0xfe)).0 in
    ((exchange true false s 0 block_detect []).1 ≡ replicate 32 0x80)
    × ((exchange true false s 0 block_detect []).0 ≡ s)
    × (s.paks ≡ writing.paks)
    × (s.rumble ≡ [])
    × ((q : ℕ) → 0 ≢ q → s.detect_cell q ≡ replicate 32 0)
exchange-identify_example = exchange-identify true writing 0 (replicate 32 0xfe) []

service_frame-serve_at_example :
    ((channel : ℕ)
      → channel < 4
      → StartsAt function_memory reading.rdram pif channel
      → service_frame function_memory true reading pif
        ≡ serve_at function_memory true reading pif channel)
    × (((i : ℕ) → i < 4 → reading.rdram (pif + i) % 256 ≡ 0)
        → service_frame function_memory true reading pif ≡ (reading, false))
    × ((service_frame function_memory true reading pif).1 ≡ false
        → (service_frame function_memory true reading pif).0 ≡ reading)
service_frame-serve_at_example = service_frame-serve_at function_memory true reading pif

abbrev asking : Si (ℕ → ℕ)
asking = over (holding pif (0x01 ∷ 0x03 ∷ 0x00 ∷ []))

os_si_raw_start_dma-serves_example :
    ((os_si_raw_start_dma function_memory true reading 0 pif).0.messages ≡ 1)
    × ((os_si_raw_start_dma function_memory true reading 0 pif).1 ≡ 0)
    × (◌≡◌ {A = ℕ} 0 0
        → 0x8000_0000 ≤ pif
        → pif < 0x8080_0000
        → (os_si_raw_start_dma function_memory true reading 0 pif).0
          ≡ record (service_frame function_memory true reading pif).0 { messages = 1 })
    × ((◌≢◌ {A = ℕ} 0 0) ⊎ (pif < 0x8000_0000) ⊎ (0x8080_0000 ≤ pif)
        → (os_si_raw_start_dma function_memory true reading 0 pif).0
          ≡ record reading { messages = 1 })
os_si_raw_start_dma-serves_example =
    os_si_raw_start_dma-serves function_memory true reading 0 pif (omega arith)

writing-IsWriteRequest : IsWriteRequest function_memory writing.rdram pif 0
writing-IsWriteRequest = record {
  low = omega arith;
  high = omega arith;
  channel_in = omega arith;
  filler = λ i h. absurd (omega arith);
  dummy = refl;
  tx_size = refl;
  rx_size = refl;
  command = refl;
}

abbrev other_buffer : ℕ → ℕ
other_buffer = holding (pif + 0x40) read_frame

other-IsReadRequest : IsReadRequest function_memory other_buffer (pif + 0x40) 0
other-IsReadRequest = record {
  low = omega arith;
  high = omega arith;
  channel_in = omega arith;
  filler = λ i h. absurd (omega arith);
  dummy = refl;
  tx_size = refl;
  rx_size = refl;
  command = refl;
}

read-write_example :
    let s = (os_si_raw_start_dma function_memory true writing 0 pif).0 in
    let s' =
      (os_si_raw_start_dma function_memory true
        (record s { rdram = other_buffer })
        0
        (pif + 0x40)).0 in
    ((i : ℕ) → i < 32 → s'.rdram (pif + 0x40 + 6 + i) % 256 ≡ writing.rdram (pif + 6 + i) % 256)
    × (s'.rdram (pif + 0x40 + 0x26) % 256 ≡ s.rdram (pif + 0x26) % 256)
read-write_example =
    read-write function_memory true writing pif (pif + 0x40) 0 other_buffer
      (initial-IsValid blank_disk) writing-IsWriteRequest (omega arith) other-IsReadRequest refl
