-- ===== src/Rom/Header.antt =====
-- `read_header`: the fields of the 64 bytes at the start of a dump.
use hybrid_heaven_recomp.Prelude.{
  ℕ, ◌+◌, ◌*◌, ◌^◌, Option, none, some, List, ◌==◌, if◌then◌else◌, length, get_or, take, slice,
}
use hybrid_heaven_recomp.Rom.Trim.{trim_trailing}

pub data RomFormat : Type 0 where
  unknown z64 n64 v64 : RomFormat

pub record RomHeader : Type 0 where
  pub format : RomFormat
  pub crc1 : ℕ
  pub crc2 : ℕ
  pub internal_name : List ℕ
  pub cartridge_id : List ℕ
  pub region : ℕ
  pub revision : ℕ
  pub size_bytes : ℕ

-- A file as the code meets it: its size, if the file system gives one, and its bytes, if it opens.
pub record RomFile : Type 0 where
  pub file_size : Option ℕ
  pub content : Option (List ℕ)

pub data HeaderError : Type 0 where
  cannot_read cannot_open too_small : HeaderError
  not_rom : ℕ → HeaderError

pub data Read : Type 0 where
  header : RomHeader → Read
  error : HeaderError → Read

unfoldable pub read_be32 : List ℕ → ℕ → ℕ
read_be32 bytes at =
    get_or bytes at 0 * 2 ^ 24
    + get_or bytes (at + 1) 0 * 2 ^ 16
    + get_or bytes (at + 2) 0 * 2 ^ 8
    + get_or bytes (at + 3) 0

unfoldable pub format_of : ℕ → Option RomFormat
format_of magic =
    if magic == 0x8037_1240
    then some z64
    else if magic == 0x4012_3780
    then some n64
    else if magic == 0x3780_4012
    then some v64
    else none

unfoldable pub header_fields : RomFormat → ℕ → List ℕ → RomHeader
header_fields format size bytes = record {
  format = format;
  crc1 = read_be32 bytes 0x10;
  crc2 = read_be32 bytes 0x14;
  internal_name = trim_trailing (slice 0x20 20 bytes);
  cartridge_id = slice 0x3C 2 bytes;
  region = get_or bytes 0x3E 0;
  revision = get_or bytes 0x3F 0;
  size_bytes = size;
}

-- The 64 bytes that were read.
unfoldable pub parse_header : ℕ → List ℕ → Read
parse_header size bytes = elim (format_of (read_be32 bytes 0)) [
  | none ↦ error (not_rom (read_be32 bytes 0))
  | some format ↦ header (header_fields format size bytes)
]

unfoldable pub read_header : RomFile → Read
read_header file = elim file.file_size [
  | none ↦ error cannot_read
  | some size ↦ elim file.content [
    | none ↦ error cannot_open
    | some content ↦
        if length (take 64 content) == 64
        then parse_header size (take 64 content)
        else error too_small
  ]
]
