-- ===== src/AudioDiag/Read.antt =====
-- A dump as a player reads it: the words of its header, and its samples.
use hybrid_heaven_recomp.Prelude.{
  ℕ, ◌+◌, ◌-◌, ◌<◌, ◌/◌, lt→ltb, le→ltb_false, drop, ltb, if◌then◌else◌, ◌*◌, ◌%◌, ◌^◌, ◌≡◌, refl,
  ap, ◌∙◌, ℤ, pos, negsuc, List, [], ◌∷◌, ◌++◌, length, get_or, length-append, arith, append_assoc,
}
use hybrid_heaven_recomp.AudioDiag.Wav.{put32, put16, wav_header, sample_bytes, bytes_of}

unfoldable pub all_bytes : List (List ℤ) → List ℕ
all_bytes [] = []
all_bytes (b ∷ bs) = bytes_of b ++ all_bytes bs

unfoldable pub all_samples : List (List ℤ) → List ℤ
all_samples [] = []
all_samples (b ∷ bs) = b ++ all_samples bs

-- A little-endian word at an offset, as a player reads it.
pub word_at : List ℕ → ℕ → ℕ
word_at bytes at =
    get_or bytes at 0
    + get_or bytes (at + 1) 0 * 2 ^ 8
    + get_or bytes (at + 2) 0 * 2 ^ 16
    + get_or bytes (at + 3) 0 * 2 ^ 24

pub length-sample_bytes : (x : ℤ) → length (sample_bytes x) ≡ 2
unfolding sample_bytes put16
length-sample_bytes (pos n) = refl
length-sample_bytes (negsuc n) = refl

pub length-bytes_of : (samples : List ℤ) → length (bytes_of samples) ≡ length samples * 2
unfolding bytes_of
length-bytes_of [] = refl
length-bytes_of (x ∷ xs) =
    omega (
      arith,
      length-append (sample_bytes x) (bytes_of xs),
      length-sample_bytes x,
      length-bytes_of xs,
    )

pub length-all_bytes :
    (buffers : List (List ℤ)) → length (all_bytes buffers) ≡ length (all_samples buffers) * 2
unfolding all_bytes all_samples
length-all_bytes [] = refl
length-all_bytes (b ∷ bs) = omega (
  arith,
  length-append (bytes_of b) (all_bytes bs),
  length-append b (all_samples bs),
  length-bytes_of b,
  length-all_bytes bs,
)

-- What a player reads of a header: its tags, lengths and format words.
pub record IsHeader (rate n : ℕ) (bytes : List ℕ) : Type 0 where
  riff : word_at bytes 0 ≡ 0x4646_4952
  file_length : word_at bytes 4 ≡ (36 + n) % 2 ^ 32
  wave : word_at bytes 8 ≡ 0x4556_4157
  fmt : word_at bytes 12 ≡ 0x2074_6D66
  format_length : word_at bytes 16 ≡ 16
  pcm_stereo : word_at bytes 20 ≡ 0x0002_0001
  frame_rate : word_at bytes 24 ≡ rate
  byte_rate : word_at bytes 28 ≡ rate * 4 % 2 ^ 32
  frame_16_bit : word_at bytes 32 ≡ 0x0010_0004
  body : word_at bytes 36 ≡ 0x6174_6164
  body_length : word_at bytes 40 ≡ n % 2 ^ 32

pub wav_header-IsHeader :
    (rate n : ℕ) (rest : List ℕ) → rate < 2 ^ 32 → IsHeader rate n (wav_header rate n ++ rest)
unfolding word_at wav_header put32 put16
wav_header-IsHeader rate n rest h = record {
  riff = omega arith;
  file_length = omega arith;
  wave = omega arith;
  fmt = omega arith;
  format_length = omega arith;
  pcm_stereo = omega arith;
  frame_rate = omega arith;
  byte_rate = omega arith;
  frame_16_bit = omega arith;
  body = omega arith;
  body_length = omega arith;
}

-- A signed 16-bit sample, from its two bytes, and the samples of a body.
pub sample_of : ℕ → ℕ → ℤ
sample_of low high = let v = low + 256 * high in if ltb v 0x8000 then pos v else negsuc (0xFFFF - v)

pub samples_of : List ℕ → List ℤ
samples_of [] = []
samples_of (low ∷ []) = []
samples_of (low ∷ high ∷ bytes) = sample_of low high ∷ samples_of bytes

unfoldable pub Is16 : ℤ → Type 0
Is16 (pos n) = n < 0x8000
Is16 (negsuc n) = n < 0x8000

unfoldable pub All16 : List ℤ → Type 0
All16 [] = Unit
All16 (x ∷ xs) = Is16 x × All16 xs

unfoldable pub All16s : List (List ℤ) → Type 0
All16s [] = Unit
All16s (b ∷ bs) = All16 b × All16s bs

pub sample_of_pos : (n : ℕ) → n < 0x8000 → sample_of (n % 256) (n / 2 ^ 8 % 256) ≡ pos n
unfolding sample_of
sample_of_pos n h =
    let whole : n % 256 + 256 * (n / 2 ^ 8 % 256) ≡ n = omega arith in
    rw (whole, lt→ltb n 0x8000 h) refl

pub sample_of_negsuc :
    (n : ℕ) → n < 0x8000 → sample_of ((0xFFFF - n) % 256) ((0xFFFF - n) / 2 ^ 8 % 256) ≡ negsuc n
unfolding sample_of
sample_of_negsuc n h =
    let whole : (0xFFFF - n) % 256 + 256 * ((0xFFFF - n) / 2 ^ 8 % 256) ≡ 0xFFFF - n =
      omega arith in
    let back : 0xFFFF - (0xFFFF - n) ≡ n = omega arith in
    rw (whole, le→ltb_false (0xFFFF - n) 0x8000 (omega arith), back) refl

pub drop-wav_header : (rate n : ℕ) (rest : List ℕ) → drop 44 (wav_header rate n ++ rest) ≡ rest
unfolding wav_header put32 put16
drop-wav_header rate n rest = refl

pub samples_of-sample_bytes :
    (x : ℤ) (bytes : List ℕ) → Is16 x → samples_of (sample_bytes x ++ bytes) ≡ x ∷ samples_of bytes
unfolding samples_of sample_of sample_bytes put16 Is16
samples_of-sample_bytes (pos n) bytes h = ap (λ x. x ∷ samples_of bytes) (sample_of_pos n h)
samples_of-sample_bytes (negsuc n) bytes h = ap (λ x. x ∷ samples_of bytes) (sample_of_negsuc n h)

pub samples_of-bytes_of :
    (xs : List ℤ) (bytes : List ℕ)
    → All16 xs
    → samples_of (bytes_of xs ++ bytes) ≡ xs ++ samples_of bytes
unfolding bytes_of All16
samples_of-bytes_of [] bytes h = refl
samples_of-bytes_of (x ∷ xs) bytes (h, hs) =
    ap samples_of (append_assoc (sample_bytes x) (bytes_of xs) bytes)
    ∙ (samples_of-sample_bytes x (bytes_of xs ++ bytes) h
        ∙ ap (λ ys. x ∷ ys) (samples_of-bytes_of xs bytes hs))

pub samples_of-all_bytes :
    (buffers : List (List ℤ))
    → All16s buffers
    → samples_of (all_bytes buffers) ≡ all_samples buffers
unfolding all_bytes all_samples All16s
samples_of-all_bytes [] h = unfold samples_of in refl
samples_of-all_bytes (b ∷ bs) (h, hs) =
    samples_of-bytes_of b (all_bytes bs) h ∙ ap (λ ys. b ++ ys) (samples_of-all_bytes bs hs)
