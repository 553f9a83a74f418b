-- ===== src/Rom/Trim.antt =====
-- `trim_trailing`: the spaces and zeros at the end of a name.
use hybrid_heaven_recomp.Prelude.{
  ℕ, ◌≡◌, refl, ap, ◌∙◌, inl, inr, Bool, true, false, ◌||◌, List, [], ◌∷◌, ◌++◌, ◌==◌,
  if◌then◌else◌, arith, Bool-cases,
}

unfoldable pub is_pad : ℕ → Bool
is_pad c = c == b' ' || c == 0

-- A character before what is left of the rest.
unfoldable pub keep : ℕ → List ℕ → List ℕ
keep c [] = if is_pad c then [] else c ∷ []
keep c (d ∷ ds) = c ∷ d ∷ ds

unfoldable pub trim_trailing : List ℕ → List ℕ
trim_trailing [] = []
trim_trailing (c ∷ cs) = keep c (trim_trailing cs)

pub all_pad : List ℕ → Bool
all_pad [] = true
all_pad (c ∷ cs) = if is_pad c then all_pad cs else false

-- Whether the last character is a pad.
pub ends_padded : List ℕ → Bool
ends_padded [] = false
ends_padded (c ∷ []) = is_pad c
ends_padded (c ∷ d ∷ ds) = ends_padded (d ∷ ds)

keep_lem :
    (c : ℕ) (kept pads : List ℕ)
    → all_pad pads ≡ true
    → ends_padded kept ≡ false
    → (rest : List ℕ) × (c ∷ (kept ++ pads) ≡ keep c kept ++ rest)
      × (all_pad rest ≡ true)
      × (ends_padded (keep c kept) ≡ false)
unfolding keep all_pad ends_padded
keep_lem c [] pads h plain = elim (Bool-cases (is_pad c)) [
  | inl e ↦ (c ∷ pads, ground arith, ground arith, ground arith)
  | inr e ↦ (pads, ground arith, h, ground arith)
]
keep_lem c (d ∷ ds) pads h plain = (pads, refl, h, plain)

-- A name is what `trim_trailing` leaves and then only pads, and what is left does not end in one.
pub trim_trailing_lem :
    (s : List ℕ)
    → (pads : List ℕ) × (s ≡ trim_trailing s ++ pads)
      × (all_pad pads ≡ true)
      × (ends_padded (trim_trailing s) ≡ false)
unfolding trim_trailing
trim_trailing_lem [] = ([], refl, unfold all_pad in refl, unfold ends_padded in refl)
trim_trailing_lem (c ∷ cs) =
    let (pads, same, padded, plain) = trim_trailing_lem cs in
    let (rest, same', padded', plain') = keep_lem c (trim_trailing cs) pads padded plain in
    (rest, ap (λ xs. c ∷ xs) same ∙ same', padded', plain')
