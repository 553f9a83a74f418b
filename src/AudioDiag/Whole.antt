-- ===== src/AudioDiag/Whole.antt =====
-- A dump is a whole WAV file at every moment.
use hybrid_heaven_recomp.Prelude.{
  ℕ, ◌+◌, ◌<◌, drop, ◌*◌, ◌%◌, ◌^◌, ◌≡◌, refl, sym, ap, ◌∙◌, ℤ, Bool, true, some, List, [], ◌∷◌,
  ◌++◌, length, length-append, arith, append_nil, append_assoc,
}
use mathlib.Core.Path.{subst}
use hybrid_heaven_recomp.AudioDiag.Wav.{
  put32, put16, wav_header, write_front, bytes_of, Dump, write_wav_header, close_wav, open_wav,
  append_wav, write_to, write_wav,
}
use hybrid_heaven_recomp.AudioDiag.Read.{
  all_bytes, all_samples, length-bytes_of, length-all_bytes, IsHeader, wav_header-IsHeader,
  samples_of, All16s, drop-wav_header, samples_of-all_bytes,
}

write_front_lem :
    (xs ys rest : List ℕ) → length xs ≡ length ys → write_front (xs ++ rest) ys ≡ ys ++ rest
unfolding write_front
write_front_lem [] [] rest e = refl
write_front_lem [] (y ∷ ys) rest e = absurd (omega (arith, e))
write_front_lem (x ∷ xs) [] rest e = absurd (omega (arith, e))
write_front_lem (x ∷ xs) (y ∷ ys) rest e =
    ap (λ zs. y ∷ zs) (write_front_lem xs ys rest (omega (arith, e)))

-- The buffers one after the other.
pub write_all : List (List ℤ) → Dump → Dump
write_all [] d = d
write_all (b ∷ bs) d = write_all bs (write_wav b d)

length-wav_header : (rate n m : ℕ) → length (wav_header rate n) ≡ length (wav_header rate m)
unfolding wav_header put32 put16
length-wav_header rate n m = refl

record IsWhole (rate : ℕ) (data' : List ℕ) (d : Dump) : Type 0 where
  content : d.wav ≡ some (wav_header rate (length data' % 2 ^ 64) ++ data')
  counted : d.wav_bytes ≡ length data' % 2 ^ 64
  same_rate : d.wav_rate ≡ rate

rewritten :
    (rate n m : ℕ) (data' : List ℕ)
    → write_wav_header rate m (wav_header rate n ++ data') ≡ wav_header rate m ++ data'
unfolding write_wav_header
rewritten rate n m data' =
    write_front_lem (wav_header rate n) (wav_header rate m) data' (length-wav_header rate n m)

appended :
    (rate : ℕ) (data' : List ℕ) (d : Dump) (samples : List ℤ)
    → IsWhole rate data' d
    → IsWhole rate
        (data' ++ bytes_of samples)
        (append_wav samples (wav_header rate (length data' % 2 ^ 64) ++ data') d)
unfolding append_wav
appended rate data' d samples w =
    let n = length data' % 2 ^ 64 in
    let more = bytes_of samples in
    let total : (d.wav_bytes + length samples * 2) % 2 ^ 64 ≡ length (data' ++ more) % 2 ^ 64 =
      omega (arith, w.counted, length-append data' more, length-bytes_of samples) in
    let m = length (data' ++ more) % 2 ^ 64 in
    record {
      content =
          rw (total, w.same_rate, append_assoc (wav_header rate n) data' more)
            (ap some (rewritten rate n m (data' ++ more)));
      counted = total;
      same_rate = w.same_rate;
    }

closed_lem :
    (rate : ℕ) (data' : List ℕ) (d : Dump)
    → IsWhole rate data' d
    → close_wav d.wav d ≡ d.closed ++ (wav_header rate (length data' % 2 ^ 64) ++ data') ∷ []
unfolding close_wav
closed_lem rate data' d w =
    ap (λ o. close_wav o d) w.content
    ∙ ap (λ c. d.closed ++ c ∷ [])
        (rw (w.same_rate, w.counted)
          (rewritten rate (length data' % 2 ^ 64) (length data' % 2 ^ 64) data'))

write_wav-IsWhole :
    (rate : ℕ) (data' : List ℕ) (d : Dump) (samples : List ℤ)
    → IsWhole rate data' d
    → IsWhole rate (data' ++ bytes_of samples) (write_wav samples d)
unfolding write_wav write_to
write_wav-IsWhole rate data' d samples w =
    let n = length data' % 2 ^ 64 in
    let old = wav_header rate n ++ data' in
    let more = bytes_of samples in
    subst (IsWhole rate (data' ++ more)) (ap (λ o. write_to o samples d) (sym w.content))
      (appended rate data' d samples w)

write_all-IsWhole :
    (rate : ℕ) (data' : List ℕ) (d : Dump) (buffers : List (List ℤ))
    → IsWhole rate data' d
    → IsWhole rate (data' ++ all_bytes buffers) (write_all buffers d)
unfolding write_all all_bytes
write_all-IsWhole rate data' d [] w = rw (append_nil data') w
write_all-IsWhole rate data' d (b ∷ bs) w = rw⁻¹ (append_assoc data' (bytes_of b) (all_bytes bs)) (
    write_all-IsWhole rate (data' ++ bytes_of b) (write_wav b d) bs
      (write_wav-IsWhole rate data' d b w))

open_wav-IsWhole : (rate : ℕ) (d : Dump) → IsWhole rate [] (open_wav true rate d)
unfolding open_wav write_wav_header write_front wav_header put32 put16
open_wav-IsWhole rate d = record { content = refl; counted = refl; same_rate = refl }

-- After any buffers of 16-bit samples, where every write to the file succeeds: the file that was opened for
-- the dump, at a 32-bit rate, has a WAV header, as a player reads it, of 16-bit stereo at that rate with
-- the true lengths, and what follows its 44 bytes decodes to the samples of all the buffers in order. When
-- the next file is opened, at whatever rate and whether or not it can be, that is the file that is left.
pub write_all-whole :
    (rate : ℕ) (d : Dump) (buffers : List (List ℤ)) (opens : Bool) (next_rate : ℕ)
    → rate < 2 ^ 32
    → All16s buffers
    → let t = write_all buffers (open_wav true rate d) in
      (content : List ℕ) × (t.wav ≡ some content)
      × IsHeader rate (length (all_samples buffers) * 2 % 2 ^ 64) content
      × (samples_of (drop 44 content) ≡ all_samples buffers)
      × ((open_wav opens next_rate t).closed ≡ t.closed ++ content ∷ [])
unfolding open_wav
write_all-whole rate d buffers opens next_rate h hs =
    let t = write_all buffers (open_wav true rate d) in
    let n = length (all_bytes buffers) % 2 ^ 64 in
    let m = length (all_samples buffers) * 2 % 2 ^ 64 in
    let content = wav_header rate n ++ all_bytes buffers in
    let w = write_all-IsWhole rate [] (open_wav true rate d) buffers (open_wav-IsWhole rate d) in
    let same : n ≡ m = ap (λ k. k % 2 ^ 64) (length-all_bytes buffers) in
    (
      content,
      w.content,
      subst (λ k. IsHeader rate k content) same (wav_header-IsHeader rate n (all_bytes buffers) h),
      ap samples_of (drop-wav_header rate n (all_bytes buffers)) ∙ samples_of-all_bytes buffers hs,
      closed_lem rate (all_bytes buffers) t w,
    )
