-- ===== src/AudioDiag/Wav.antt =====
-- The dump: a file that is rewritten in place. Files that were closed are kept, the oldest first.
use hybrid_heaven_recomp.Prelude.{
  ℕ, ◌+◌, ◌-◌, ◌*◌, ◌/◌, ◌%◌, ◌^◌, ℤ, pos, negsuc, Bool, Option, none, some, List, [], ◌∷◌, ◌++◌,
  if◌then◌else◌, length,
}

unfoldable pub put32 : ℕ → List ℕ
put32 v = v % 256 ∷ v / 2 ^ 8 % 256 ∷ v / 2 ^ 16 % 256 ∷ v / 2 ^ 24 % 256 ∷ []

unfoldable pub put16 : ℕ → List ℕ
put16 v = v % 256 ∷ v / 2 ^ 8 % 256 ∷ []

-- The 44 bytes of the header, by their fields in order.
unfoldable pub wav_header : ℕ → ℕ → List ℕ
wav_header rate data_bytes =
    (b'R' ∷ b'I' ∷ b'F' ∷ b'F' ∷ [])
    ++ (put32 ((36 + data_bytes) % 2 ^ 32)
        ++ ((b'W' ∷ b'A' ∷ b'V' ∷ b'E' ∷ b'f' ∷ b'm' ∷ b't' ∷ b' ' ∷ [])
            ++ (put32 16
                ++ (put16 1
                    ++ (put16 2
                        ++ (put32 rate
                            ++ (put32 (rate * 4 % 2 ^ 32)
                                ++ (put16 4
                                    ++ (put16 16
                                        ++ ((b'd' ∷ b'a' ∷ b't' ∷ b'a' ∷ [])
                                            ++ put32 (data_bytes % 2 ^ 32)))))))))))

-- `fwrite` from the start of a file.
unfoldable pub write_front : List ℕ → List ℕ → List ℕ
write_front content [] = content
write_front [] (b ∷ bs) = b ∷ bs
write_front (c ∷ content) (b ∷ bs) = b ∷ write_front content bs

-- A sample as the host lays it out, least byte first.
unfoldable pub sample_bytes : ℤ → List ℕ
sample_bytes (pos n) = put16 n
sample_bytes (negsuc n) = put16 (0xFFFF - n)

unfoldable pub bytes_of : List ℤ → List ℕ
bytes_of [] = []
bytes_of (x ∷ xs) = sample_bytes x ++ bytes_of xs

pub record Dump : Type 0 where
  pub wav : Option (List ℕ)
  pub wav_bytes : ℕ
  pub wav_index : ℕ
  pub wav_rate : ℕ
  pub closed : List (List ℕ)

unfoldable pub write_wav_header : ℕ → ℕ → List ℕ → List ℕ
write_wav_header rate data_bytes content = write_front content (wav_header rate data_bytes)

-- The file that was open, with its header true once more.
unfoldable pub close_wav : Option (List ℕ) → Dump → List (List ℕ)
close_wav none d = d.closed
close_wav (some content) d = d.closed ++ write_wav_header d.wav_rate d.wav_bytes content ∷ []

-- `opens` is whether the new file could be opened.
unfoldable pub open_wav : Bool → ℕ → Dump → Dump
open_wav opens rate d = record {
  closed = close_wav d.wav d;
  wav_bytes = 0;
  wav_rate = rate;
  wav_index = d.wav_index + 1;
  wav = if opens then some (write_wav_header rate 0 []) else none;
}

unfoldable pub append_wav : List ℤ → List ℕ → Dump → Dump
append_wav samples content d =
    let total = (d.wav_bytes + length samples * 2) % 2 ^ 64 in
    record d {
      wav_bytes = total;
      wav = some (write_wav_header d.wav_rate total (content ++ bytes_of samples));
    }

unfoldable pub write_to : Option (List ℕ) → List ℤ → Dump → Dump
write_to none samples d = d
write_to (some content) samples d = append_wav samples content d

unfoldable pub write_wav : List ℤ → Dump → Dump
write_wav samples d = write_to d.wav samples d
