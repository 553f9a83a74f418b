-- ===== src/Audio/Sample.antt =====
-- One buffer of 16-bit samples: the channels put right, and the volume.
pub mod Volume
use hybrid_heaven_recomp.Prelude.{
  ℕ, zero, suc, ◌+◌, ◌*◌, ◌/◌, ℤ, pos, negsuc, Bool, true, false, not, ◌&&◌, List, [], ◌∷◌, ◌==◌,
  ltb, if◌then◌else◌,
}

-- The two halves of each word stand in the opposite order; an odd sample at the end is copied.
unfoldable pub unswap : List ℤ → List ℤ
unswap [] = []
unswap (a ∷ []) = a ∷ []
unswap (a ∷ b ∷ rest) = b ∷ a ∷ unswap rest

-- `-n`
abbrev pub minus : ℕ → ℤ
minus zero = pos 0
minus (suc n) = negsuc n

-- `sample * volume / 100`, which C++ rounds towards zero.
unfoldable pub scale : ℕ → ℤ → ℤ
scale volume (pos n) = pos (n * volume / 100)
scale volume (negsuc n) = minus (suc n * volume / 100)

-- `std::clamp(volume, 0, 100)`
unfoldable pub clamp_percent : ℤ → ℕ
clamp_percent (pos v) = if ltb 100 v then 100 else v
clamp_percent (negsuc v) = 0

abbrev pub map_samples : (ℤ → ℤ) → List ℤ → List ℤ
map_samples f [] = []
map_samples f (s ∷ ss) = f s ∷ map_samples f ss

-- The buffer at a volume from 0 to 100.
unfoldable pub at_volume : ℕ → List ℤ → List ℤ
unfolding scale
at_volume volume samples =
    if volume == 0
    then map_samples (λ s. pos 0) samples
    else if ltb volume 100
    then map_samples (scale volume) samples
    else samples
