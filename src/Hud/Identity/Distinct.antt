-- ===== src/Hud/Identity/Distinct.antt =====
-- An element's name determines its kind, its address and the hash of what is drawn.
use native.Mathlib.Decide.{ℕ_discrete}
use hybrid_heaven_recomp.Prelude.{
  ℕ, zero, suc, ◌+◌, ◌/◌, ◌%◌, ◌^◌, ◌<◌, ◌≡◌, ◌≢◌, inl, inr, refl, ap, sym, ◌∙◌, ◌⊎◌, ◌&&◌, take, ℤ,
  List, [], ◌∷◌, ◌++◌, arith, ◌==◌, drop, get_or, Bool-cases,
}
use hybrid_heaven_recomp.Hud.Memory.{Rdram, read_word}
use hybrid_heaven_recomp.Hud.Identity.{
  hex_digit, hex, fnv, fnv_basis, texture_hash, texture, list_hash, list, fill, at_most, at_least,
}

hex_digit-injective : (a b : ℕ) → a < 16 → b < 16 → hex_digit a ≡ hex_digit b → a ≡ b
unfolding hex_digit
hex_digit-injective a b ha hb e = ground arith

head_eq : {x y : ℕ} {xs ys : List ℕ} → x ∷ xs ≡ y ∷ ys → (x ≡ y) × (xs ≡ ys)
head_eq e = (cc, cc)

-- A digit and what follows it, read back.
digit-injective :
    (a b : ℕ) (xs ys : List ℕ)
    → hex_digit (a % 16) ∷ xs ≡ hex_digit (b % 16) ∷ ys
    → (a % 16 ≡ b % 16) × (xs ≡ ys)
digit-injective a b xs ys e =
    (hex_digit-injective (a % 16) (b % 16) (omega arith) (omega arith) (head_eq e).0, (head_eq e).1)

hex-injective :
    (k a b : ℕ) (xs ys : List ℕ)
    → hex k a ++ xs ≡ hex k b ++ ys
    → ((i : ℕ) → i < k → a / 16 ^ i % 16 ≡ b / 16 ^ i % 16) × (xs ≡ ys)
unfolding hex
hex-injective zero a b xs ys e = (λ i h. absurd (omega arith), e)
hex-injective (suc k) a b xs ys e =
    let (top, rest) = digit-injective (a / 16 ^ k) (b / 16 ^ k) (hex k a ++ xs) (hex k b ++ ys) e in
    let (below, tail) = hex-injective k a b xs ys rest in
    (λ i h. elim (ℕ_discrete i k) [ yes p ↦ rw p top | no ne ↦ below i (omega arith) ], tail)

word_digits :
    (a b : ℕ)
    → a < 2 ^ 32
    → b < 2 ^ 32
    → ((i : ℕ) → i < 8 → a / 16 ^ i % 16 ≡ b / 16 ^ i % 16)
    → a ≡ b
word_digits a b ha hb d = omega (
  arith,
  d 0 (omega arith),
  d 1 (omega arith),
  d 2 (omega arith),
  d 3 (omega arith),
  d 4 (omega arith),
  d 5 (omega arith),
  d 6 (omega arith),
  d 7 (omega arith),
)

hex_word-injective :
    (a b : ℕ) (xs ys : List ℕ)
    → a < 2 ^ 32
    → b < 2 ^ 32
    → hex 8 a ++ xs ≡ hex 8 b ++ ys
    → (a ≡ b) × (xs ≡ ys)
hex_word-injective a b xs ys ha hb e =
    let (digits, rest) = hex-injective 8 a b xs ys e in (word_digits a b ha hb digits, rest)

fnv_bound : (h w : ℕ) → fnv h w < 2 ^ 32
unfolding fnv
fnv_bound h w = omega arith

texture_hash_bound :
    (rdram : Rdram) (n h phys : ℕ) → h < 2 ^ 32 → texture_hash rdram n h phys < 2 ^ 32
unfolding texture_hash
texture_hash_bound rdram zero h phys lt = lt
texture_hash_bound rdram (suc n) h phys lt =
    texture_hash_bound rdram n (fnv h (read_word rdram phys)) (phys + 4)
      (fnv_bound h (read_word rdram phys))

list_hash_bound : (rdram : Rdram) (n h phys : ℕ) → h < 2 ^ 32 → list_hash rdram n h phys < 2 ^ 32
unfolding list_hash
list_hash_bound rdram zero h phys lt = lt
list_hash_bound rdram (suc n) h phys lt =
    let h' = fnv (fnv h (read_word rdram phys)) (read_word rdram (phys + 4)) in
    let bound = fnv_bound (fnv h (read_word rdram phys)) (read_word rdram (phys + 4)) in
    elim (Bool-cases (read_word rdram phys / 2 ^ 24 == 0xDF)) [
      | inl e ↦ rw e bound
      | inr e ↦ rw e (list_hash_bound rdram n h' (phys + 8) bound)
    ]

-- An address and a hash, from the name after its prefix.
name_parts :
    (a a' h h' : ℕ)
    → a < 2 ^ 32
    → a' < 2 ^ 32
    → h < 2 ^ 32
    → h' < 2 ^ 32
    → hex 8 a ++ b'#' ∷ hex 8 h ≡ hex 8 a' ++ b'#' ∷ hex 8 h'
    → (a ≡ a') × (h ≡ h')
name_parts a a' h h' ha ha' hh hh' e =
    let (same, rest) = hex_word-injective a a' (b'#' ∷ hex 8 h) (b'#' ∷ hex 8 h') ha ha' e in
    let digits : hex 8 h ≡ hex 8 h' = (head_eq rest).1 in
    let closed : hex 8 h ++ [] ≡ hex 8 h' ++ [] = ap (λ xs. xs ++ []) digits in
    (same, (hex_word-injective h h' [] [] hh hh' closed).0)

-- A name of a fill rectangle is empty, or begins with its kind and has its colour's digits after it.
fill_lem :
    (colour : ℕ) (ulx uly lrx lry : ℤ)
    → (fill colour ulx uly lrx lry ≡ [])
      ⊎ ((get_or (fill colour ulx uly lrx lry) 0 0 ≡ b'f')
          × (take 8 (drop 7 (fill colour ulx uly lrx lry)) ≡ hex 8 colour))
unfolding fill hex
fill_lem colour ulx uly lrx lry =
    elim (Bool-cases (at_most ulx 0 && at_most uly 0 && at_least lrx 319 && at_least lry 239)) [
      | inl e ↦ rw e (inl refl)
      | inr e ↦ rw e (inr (refl, refl))
    ]

-- Not the name of a kind whose names begin otherwise.
fill_apart :
    (colour : ℕ) (ulx uly lrx lry : ℤ) (name : List ℕ)
    → get_or name 0 0 ≢ b'f'
    → get_or name 0 0 ≢ 0
    → fill colour ulx uly lrx lry ≢ name
fill_apart colour ulx uly lrx lry name other some_byte e = elim (fill_lem colour ulx uly lrx lry) [
  | inl h ↦ some_byte (ap (λ xs. get_or xs 0 0) (sym e ∙ h))
  | inr (h, digits) ↦ other (ap (λ xs. get_or xs 0 0) (sym e) ∙ h)
]

fill-colour :
    (colour colour' : ℕ) (ulx uly lrx lry ulx' uly' lrx' lry' : ℤ)
    → colour < 2 ^ 32
    → colour' < 2 ^ 32
    → fill colour ulx uly lrx lry ≡ fill colour' ulx' uly' lrx' lry'
    → (fill colour ulx uly lrx lry ≡ []) ⊎ (colour ≡ colour')
fill-colour c c' ulx uly lrx lry ulx' uly' lrx' lry' h h' e = elim (fill_lem c ulx uly lrx lry) [
  | inl z ↦ inl z
  | inr (f, digits) ↦ elim (fill_lem c' ulx' uly' lrx' lry') [
    | inl z ↦ inl (e ∙ z)
    | inr (f', digits') ↦
        let same : hex 8 c ≡ hex 8 c' = sym digits ∙ (ap (λ xs. take 8 (drop 7 xs)) e ∙ digits') in
        inr (hex_word-injective c c' [] [] h h' (ap (λ xs. xs ++ []) same)).0
  ]
]

-- For any memories, 32-bit addresses and colours: two textures have one name only if their addresses and
-- the hashes of their first 64 bytes agree; likewise two lists and the hashes of their first commands;
-- two fill rectangles have one name only if it is the empty one of the full frame or their colours
-- agree; and no two of the three kinds share a name.
pub identities-distinct :
    (rdram rdram' : Rdram) (address address' phys phys' colour colour' : ℕ)
    (ulx uly lrx lry ulx' uly' lrx' lry' : ℤ)
    → address < 2 ^ 32
    → address' < 2 ^ 32
    → colour < 2 ^ 32
    → colour' < 2 ^ 32
    → let named = fill colour ulx uly lrx lry in
      (texture rdram address phys ≡ texture rdram' address' phys'
        → (address ≡ address')
          × (texture_hash rdram 16 fnv_basis phys ≡ texture_hash rdram' 16 fnv_basis phys'))
      × (list rdram address phys ≡ list rdram' address' phys'
          → (address ≡ address')
            × (list_hash rdram 16 fnv_basis phys ≡ list_hash rdram' 16 fnv_basis phys'))
      × (named ≡ fill colour' ulx' uly' lrx' lry' → (named ≡ []) ⊎ (colour ≡ colour'))
      × (texture rdram address phys ≢ list rdram' address' phys')
      × (named ≢ texture rdram' address' phys')
      × (named ≢ list rdram' address' phys')
unfolding texture list
identities-distinct rdram rdram' a a' p p' c c' ulx uly lrx lry ulx' uly' lrx' lry' ha ha' hc hc' =
    let t = texture_hash_bound rdram 16 fnv_basis p (omega arith) in
    let t' = texture_hash_bound rdram' 16 fnv_basis p' (omega arith) in
    let l = list_hash_bound rdram 16 fnv_basis p (omega arith) in
    let l' = list_hash_bound rdram' 16 fnv_basis p' (omega arith) in
    (
      λ e.
          name_parts a a' (texture_hash rdram 16 fnv_basis p) (texture_hash rdram' 16 fnv_basis p')
            ha ha' t t' (ap (drop 6) e),
      λ e.
          name_parts a a' (list_hash rdram 16 fnv_basis p) (list_hash rdram' 16 fnv_basis p') ha ha'
            l l' (ap (drop 5) e),
      fill-colour c c' ulx uly lrx lry ulx' uly' lrx' lry' hc hc',
      λ e. omega (arith, ap (λ xs. get_or xs 0 0) e),
      fill_apart c ulx uly lrx lry (texture rdram' a' p') (omega arith) (omega arith),
      fill_apart c ulx uly lrx lry (list rdram' a' p') (omega arith) (omega arith),
    )
