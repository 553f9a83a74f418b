-- ===== src/AudioDiag/Tests.antt =====
-- A dump of two buffers, and a window of the statistics.
use hybrid_heaven_recomp.Prelude.{
  arith, ℕ, drop, ◌%◌, ◌^◌, ◌≡◌, refl, ℤ, pos, negsuc, true, false, none, some, List, [], ◌∷◌, ◌++◌,
}
use hybrid_heaven_recomp.AudioDiag.Window.{Stats, note_depth, peak_of, magnitude, avg_depth}
use hybrid_heaven_recomp.AudioDiag.Wav.{Dump, open_wav, sample_bytes, put16}
use hybrid_heaven_recomp.AudioDiag.Calls.{env_set}
use hybrid_heaven_recomp.AudioDiag.Read.{All16s, All16, Is16, IsHeader, samples_of, all_samples}
use hybrid_heaven_recomp.AudioDiag.Whole.{write_all, write_all-whole}

abbrev no_stats : Stats
no_stats = record {
  rate = 48000;
  period_frames = 512;
  window_start = 0;
  buffers = 0;
  frames = 0;
  buffer_min = 0;
  buffer_max = 0;
  depth_min = 0;
  depth_max = 0;
  depth_total = 0;
  depth_samples = 0;
  peak = 0;
  have_depth = false;
  depth_after_queue = 0;
  depth_at_start = 0;
}

two_depths : avg_depth (note_depth 30 (note_depth 11 no_stats)) ≡ 20
unfolding avg_depth note_depth
two_depths = refl

loudest : peak_of 3 (pos 5 ∷ negsuc 31 ∷ pos 12 ∷ []) ≡ 32
unfolding peak_of magnitude
loudest = refl

only_zero_is_off : (env_set (some (b'0' ∷ [])) ≡ false) × (env_set (some (b'0' ∷ b'1' ∷ [])) ≡ true)
unfolding env_set
only_zero_is_off = (refl, refl)

minus_two : sample_bytes (negsuc 1) ≡ 0xFE ∷ 0xFF ∷ []
unfolding sample_bytes put16
minus_two = refl

abbrev no_dump : Dump
no_dump = record { wav = none; wav_bytes = 0; wav_index = 0; wav_rate = 0; closed = [] }

abbrev two_buffers : List (List ℤ)
two_buffers = (pos 1 ∷ negsuc 0 ∷ []) ∷ (pos 300 ∷ pos 0 ∷ []) ∷ []

two_buffers-All16s : All16s two_buffers
unfolding All16s All16 Is16
two_buffers-All16s = omega arith

write_all-whole_example :
    let t = write_all two_buffers (open_wav true 48000 no_dump) in
    (content : List ℕ) × (t.wav ≡ some content)
    × IsHeader 48000 (8 % 2 ^ 64) content
    × (samples_of (drop 44 content) ≡ all_samples two_buffers)
    × ((open_wav false 32000 t).closed ≡ t.closed ++ content ∷ [])
unfolding all_samples
write_all-whole_example =
    write_all-whole 48000 no_dump two_buffers false 32000 (omega arith) two_buffers-All16s
