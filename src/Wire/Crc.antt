-- ===== src/Wire/Crc.antt =====
-- src/si_pak.cpp, `data_crc`: the CRC that the game compares after each transfer of 32 bytes.
pub mod Detects
use hybrid_heaven_recomp.Prelude.{
  ℕ, zero, suc, ◌+◌, ◌*◌, ◌/◌, ◌%◌, ◌^◌, bit_and, bit_or, bit_xor, Option, none, some, List, [],
  ◌∷◌, ◌==◌, if◌then◌else◌,
}

-- One round of the inner loop: the CRC, and the bit that is shifted in.
unfoldable pub crc_step : ℕ → ℕ → ℕ
crc_step crc bit =
    let xor_term : ℕ = if bit_and crc 0x80 == 0 then 0x00 else 0x85 in
    bit_xor (bit_or (crc * 2 % 256) bit) xor_term

-- `(data[i] >> bit) & 1`, and nothing in the last round, `i == 32`.
unfoldable pub bit_in : Option ℕ → ℕ → ℕ
bit_in none bit = 0
bit_in (some byte) bit = bit_and (byte / 2 ^ bit) 1

-- The inner loop, with the rounds left: the bit is one less.
unfoldable pub crc_byte : ℕ → ℕ → Option ℕ → ℕ
unfolding crc_step bit_in
crc_byte zero crc byte = crc
crc_byte (suc bit) crc byte = crc_byte bit (crc_step crc (bit_in byte bit)) byte

-- The outer loop, over the bytes that are left.
unfoldable pub crc_from : ℕ → List ℕ → ℕ
crc_from crc [] = crc_byte 8 crc none
crc_from crc (byte ∷ bytes) = crc_from (crc_byte 8 crc (some byte)) bytes

unfoldable pub data_crc : List ℕ → ℕ
unfolding crc_from crc_byte
data_crc bytes = crc_from 0 bytes
