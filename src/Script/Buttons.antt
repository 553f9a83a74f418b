-- ===== src/Script/Buttons.antt =====
-- `parse_buttons`: comma-separated names, or `-` for none.
pub mod Names
use hybrid_heaven_recomp.Prelude.{
  ℕ, bit_or, Bool, true, false, Option, none, some, List, [], ◌∷◌, ◌++◌, ◌==◌, bytes_eq,
  if◌then◌else◌,
}

pub record NamedButton : Type 0 where
  pub name : List ℕ
  pub bit : ℕ

abbrev pub button : List ℕ → ℕ → NamedButton
button name bit = record { name = name; bit = bit }

unfoldable pub buttons : List NamedButton
buttons =
    button (b'A' ∷ []) 0x8000
    ∷ button (b'B' ∷ []) 0x4000
    ∷ button (b'Z' ∷ []) 0x2000
    ∷ button (b'S' ∷ b'T' ∷ b'A' ∷ b'R' ∷ b'T' ∷ []) 0x1000
    ∷ button (b'D' ∷ b'U' ∷ b'P' ∷ []) 0x0800
    ∷ button (b'D' ∷ b'D' ∷ b'O' ∷ b'W' ∷ b'N' ∷ []) 0x0400
    ∷ button (b'D' ∷ b'L' ∷ b'E' ∷ b'F' ∷ b'T' ∷ []) 0x0200
    ∷ button (b'D' ∷ b'R' ∷ b'I' ∷ b'G' ∷ b'H' ∷ b'T' ∷ []) 0x0100
    ∷ button (b'L' ∷ []) 0x0020
    ∷ button (b'R' ∷ []) 0x0010
    ∷ button (b'C' ∷ b'U' ∷ b'P' ∷ []) 0x0008
    ∷ button (b'C' ∷ b'D' ∷ b'O' ∷ b'W' ∷ b'N' ∷ []) 0x0004
    ∷ button (b'C' ∷ b'L' ∷ b'E' ∷ b'F' ∷ b'T' ∷ []) 0x0002
    ∷ button (b'C' ∷ b'R' ∷ b'I' ∷ b'G' ∷ b'H' ∷ b'T' ∷ []) 0x0001
    ∷ []

-- The first button with this name.
unfoldable pub find_button : List NamedButton → List ℕ → Option ℕ
unfolding bytes_eq
find_button [] name = none
find_button (b ∷ bs) name =
    let rest = find_button bs name in if bytes_eq name b.name then some b.bit else rest

-- What `std::getline` gives for the separator `,`: an empty piece at the end is none. The first
-- argument is the piece so far.
unfoldable pub last_piece : List ℕ → List (List ℕ)
last_piece [] = []
last_piece (c ∷ cs) = (c ∷ cs) ∷ []

unfoldable pub pieces : List ℕ → List ℕ → List (List ℕ)
unfolding last_piece
pieces piece [] = last_piece piece
pieces piece (d ∷ ds) =
    let rest = pieces [] ds in
    let longer = pieces (piece ++ d ∷ []) ds in if d == b',' then piece ∷ rest else longer

-- The loop over the names, with what is pressed so far; `none` is the result `false`.
unfoldable pub press : ℕ → List (List ℕ) → Option ℕ
press pressed [] = some pressed
press pressed (name ∷ names) = elim (find_button buttons name) [
  | none ↦ none
  | some bit ↦ press (bit_or pressed bit) names
]

unfoldable pub parse_buttons : List ℕ → Option ℕ
unfolding bytes_eq
parse_buttons [] = some 0
parse_buttons (c ∷ cs) =
    if bytes_eq (c ∷ cs) (b'-' ∷ []) then some 0 else press 0 (pieces [] (c ∷ cs))
