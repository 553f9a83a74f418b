-- ===== src/Audio/Rate/Bounds.antt =====
-- The depth of the queue, in the game's frames.
use native.Mathlib.Nat.{div-mul-le_self, lt-div-mul-add}
use hybrid_heaven_recomp.Prelude.{ℕ, ◌+◌, ◌*◌, ◌%◌, ◌^◌, ◌≤◌, ◌<◌, ◌≡◌, ◌≢◌, ne→==_false, arith}
use hybrid_heaven_recomp.Audio.Rate.{Filter, configure, to_source_frames}

-- Between two rates that differ and are not 0: the depth at the source's rate is the depth at the
-- device's rate by the ratio of the two, rounded down, while the product stays below 2^64.
pub to_source_frames-configure :
    {State : Type 0} (filter : Filter State) (src dst frames : ℕ)
    → src ≢ 0
    → dst ≢ 0
    → src ≢ dst
    → frames * src < 2 ^ 64
    → let depth = to_source_frames (configure filter src dst) frames in
      (depth * dst ≤ frames * src) × (frames * src < depth * dst + dst)
unfolding to_source_frames configure
to_source_frames-configure filter src dst frames s d ne small =
    rw (ne→==_false src 0 s, ne→==_false dst 0 d, ne→==_false src dst ne)
      (let whole : frames * src % 2 ^ 64 ≡ frames * src = omega arith in
        rw whole (div-mul-le_self (frames * src) dst, lt-div-mul-add (omega arith)))
