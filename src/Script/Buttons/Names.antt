-- ===== src/Script/Buttons/Names.antt =====
-- Names that are joined by commas are parsed to the buttons that they name.
use hybrid_heaven_recomp.Prelude.{
  append_nil, ℕ, ◌≡◌, refl, ap, sym, ◌∙◌, inl, inr, bit_or, Bool, true, false, not, ◌&&◌, some,
  List, [], ◌∷◌, ◌++◌, ◌==◌, bytes_eq, bytes_eq→eq, arith, Bool-cases,
}
use hybrid_heaven_recomp.Script.Buttons.{
  NamedButton, buttons, find_button, last_piece, pieces, press, parse_buttons,
}

and_left : (a b : Bool) → (a && b) ≡ true → a ≡ true
and_left true b e = refl
and_left false b e = cc

and_right : (a b : Bool) → (a && b) ≡ true → b ≡ true
and_right true b e = e
and_right false b e = cc

abbrev plain : List ℕ → Bool
plain [] = true
plain (c ∷ cs) = not (c == b',') && plain cs

-- A script's field for these names.
abbrev pub joined : List ℕ → List (List ℕ) → List ℕ
joined name [] = name
joined name (n ∷ ns) = name ++ (b',' ∷ joined n ns)

-- Buttons as the table has them.
unfoldable pub Known : List NamedButton → Type 0
Known [] = Unit
Known (b ∷ bs) = (find_button buttons b.name ≡ some b.bit) × Known bs

abbrev pub names_of : List NamedButton → List (List ℕ)
names_of [] = []
names_of (b ∷ bs) = b.name ∷ names_of bs

pub pressed_all : ℕ → List NamedButton → ℕ
pressed_all pressed [] = pressed
pressed_all pressed (b ∷ bs) = pressed_all (bit_or pressed b.bit) bs

press_found :
    (pressed bit : ℕ) (name : List ℕ) (names : List (List ℕ))
    → find_button buttons name ≡ some bit
    → press pressed (name ∷ names) ≡ press (bit_or pressed bit) names
unfolding press
press_found pressed bit name names e = ground arith

press-Known :
    (pressed : ℕ) (bs : List NamedButton)
    → Known bs
    → press pressed (names_of bs) ≡ some (pressed_all pressed bs)
unfolding pressed_all Known
press-Known pressed [] k = unfold press in refl
press-Known pressed (b ∷ bs) (e, k) =
    press_found pressed b.bit b.name (names_of bs) e ∙ press-Known (bit_or pressed b.bit) bs k

-- A name that is a piece of its own: without commas, not empty, and not `-`.
abbrev proper : List ℕ → Bool
proper [] = false
proper (c ∷ cs) = plain (c ∷ cs) && not (bytes_eq (c ∷ cs) (b'-' ∷ []))

abbrev all_proper : List NamedButton → Bool
all_proper [] = true
all_proper (b ∷ bs) = proper b.name && all_proper bs

find_button-proper :
    (table : List NamedButton) (name : List ℕ) (bit : ℕ)
    → all_proper table ≡ true
    → find_button table name ≡ some bit
    → proper name ≡ true
unfolding find_button
find_button-proper [] name bit h e = cc
find_button-proper (b ∷ bs) name bit h e = elim (Bool-cases (bytes_eq name b.name)) [
  | inl same ↦ rw (bytes_eq→eq name b.name same) (and_left (proper b.name) (all_proper bs) h)
  | inr other ↦
      let there : find_button bs name ≡ some bit = ground arith in
      find_button-proper bs name bit (and_right (proper b.name) (all_proper bs) h) there
]

buttons_proper : all_proper buttons ≡ true
unfolding buttons bytes_eq
buttons_proper = refl

append_one : (xs : List ℕ) (y : ℕ) (ys : List ℕ) → (xs ++ y ∷ []) ++ ys ≡ xs ++ y ∷ ys
append_one [] y ys = refl
append_one (x ∷ xs) y ys = ap (λ zs. x ∷ zs) (append_one xs y ys)

no_comma : (c : ℕ) (cs : List ℕ) → plain (c ∷ cs) ≡ true → (c == b',') ≡ false
no_comma c cs h = ground arith

pieces-comma :
    (piece name rest : List ℕ)
    → plain name ≡ true
    → pieces piece (name ++ (b',' ∷ rest)) ≡ (piece ++ name) ∷ pieces [] rest
unfolding pieces
pieces-comma piece [] rest h = ap (λ p. p ∷ pieces [] rest) (sym (append_nil piece))
pieces-comma piece (c ∷ cs) rest h =
    let e = pieces-comma (piece ++ c ∷ []) cs rest (and_right (not (c == b',')) (plain cs) h) in
    rw (no_comma c cs h) (e ∙ ap (λ p. p ∷ pieces [] rest) (append_one piece c cs))

pieces-last :
    (piece name : List ℕ) → plain name ≡ true → pieces piece name ≡ last_piece (piece ++ name)
unfolding pieces
pieces-last piece [] h = ap last_piece (sym (append_nil piece))
pieces-last piece (c ∷ cs) h =
    let e = pieces-last (piece ++ c ∷ []) cs (and_right (not (c == b',')) (plain cs) h) in
    rw (no_comma c cs h) (e ∙ ap last_piece (append_one piece c cs))

Known-proper : (name : List ℕ) (bit : ℕ) → find_button buttons name ≡ some bit → proper name ≡ true
Known-proper name bit e = find_button-proper buttons name bit buttons_proper e

proper-plain : (name : List ℕ) → proper name ≡ true → plain name ≡ true
proper-plain [] h = cc
proper-plain (c ∷ cs) h = and_left (plain (c ∷ cs)) (not (bytes_eq (c ∷ cs) (b'-' ∷ []))) h

last_piece-proper : (name : List ℕ) → proper name ≡ true → last_piece name ≡ name ∷ []
unfolding last_piece
last_piece-proper [] h = cc
last_piece-proper (c ∷ cs) h = refl

pieces-joined :
    (b : NamedButton) (bs : List NamedButton)
    → Known (b ∷ bs)
    → pieces [] (joined b.name (names_of bs)) ≡ names_of (b ∷ bs)
unfolding Known
pieces-joined b [] (e, k) =
    let h = Known-proper b.name b.bit e in
    pieces-last [] b.name (proper-plain b.name h) ∙ last_piece-proper b.name h
pieces-joined b (c ∷ cs) (e, k) =
    pieces-comma [] b.name (joined c.name (names_of cs))
      (proper-plain b.name (Known-proper b.name b.bit e))
    ∙ ap (λ ps. b.name ∷ ps) (pieces-joined c cs k)

-- A field that is no `-`: a proper name, or what has a comma.
parse_proper : (name : List ℕ) → proper name ≡ true → parse_buttons name ≡ press 0 (pieces [] name)
unfolding parse_buttons
parse_proper [] h = cc
parse_proper (c ∷ cs) h =
    let e = and_right (plain (c ∷ cs)) (not (bytes_eq (c ∷ cs) (b'-' ∷ []))) h in ground arith

longer_differs : (c d : ℕ) (cs rest : List ℕ) → bytes_eq (c ∷ (cs ++ d ∷ rest)) (b'-' ∷ []) ≡ false
unfolding bytes_eq
longer_differs c d [] rest = ground arith
longer_differs c d (x ∷ xs) rest = ground arith

parse_longer :
    (name rest : List ℕ)
    → proper name ≡ true
    → parse_buttons (name ++ (b',' ∷ rest)) ≡ press 0 (pieces [] (name ++ (b',' ∷ rest)))
unfolding parse_buttons
parse_longer [] rest h = cc
parse_longer (c ∷ cs) rest h = rw (longer_differs c b',' cs rest) refl

parse_joined :
    (b : NamedButton) (bs : List NamedButton)
    → Known (b ∷ bs)
    → parse_buttons (joined b.name (names_of bs))
      ≡ press 0 (pieces [] (joined b.name (names_of bs)))
unfolding Known
parse_joined b [] (e, k) = parse_proper b.name (Known-proper b.name b.bit e)
parse_joined b (c ∷ cs) (e, k) =
    parse_longer b.name (joined c.name (names_of cs)) (Known-proper b.name b.bit e)

-- For any buttons of the table, one at least, in any order and as often as one likes: their names
-- joined by commas are parsed, to exactly the bits of those buttons together.
pub parse_buttons-joined :
    (b : NamedButton) (bs : List NamedButton)
    → Known (b ∷ bs)
    → parse_buttons (joined b.name (names_of bs)) ≡ some (pressed_all 0 (b ∷ bs))
parse_buttons-joined b bs k =
    parse_joined b bs k ∙ (ap (press 0) (pieces-joined b bs k) ∙ press-Known 0 (b ∷ bs) k)
