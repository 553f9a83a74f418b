-- ===== src/Inspector/Saved.antt =====
-- What one saved override changes in the lists of hud.json and in what is loaded from them.
use hybrid_heaven_recomp.Prelude.{
  ℕ, ◌<◌, ◌≡◌, ◌≢◌, refl, sym, ◌∙◌, inl, inr, Bool, true, false, not, ◌&&◌, ◌||◌, Option, none,
  some, List, [], ◌∷◌, ◌++◌, ◌==◌, bytes_eq, bytes_eq→eq, bytes_eq_refl, if◌then◌else◌, arith,
  Bool-cases, lt→ltb, lookup, set, lookup-set, same_test,
}
use hybrid_heaven_recomp.Inspector.Overrides.{
  Identity, Overrides, Doc, list_of, is_item, erase, save_one, load_list, load_overrides,
}

bytes_eq-ne : (a b : Identity) → a ≢ b → bytes_eq a b ≡ false
bytes_eq-ne a b ne = elim (Bool-cases (bytes_eq a b)) [
  | inl e ↦ absurd (ne (bytes_eq→eq a b e))
  | inr e ↦ e
]

-- Whether a list has the name.
pub has : Identity → List (Option Identity) → Bool
has x [] = false
has x (item ∷ items) = is_item x item || has x items

lookup-load_list :
    (table : Overrides) (c : ℕ) (items : List (Option Identity)) (x : Identity)
    → lookup (load_list table c items) x ≡ (if has x items then some c else lookup table x)
unfolding load_list has is_item
lookup-load_list table c [] x = refl
lookup-load_list table c (none ∷ items) x = lookup-load_list table c items x
lookup-load_list table c (some id ∷ items) x =
    ground (arith, lookup-load_list (set table id c) c items x, lookup-set table id x c)

has-erase :
    (id x : Identity) (items : List (Option Identity))
    → has x (erase id items) ≡ (has x items && not (bytes_eq id x))
unfolding has erase is_item
has-erase id x [] = refl
has-erase id x (none ∷ items) = has-erase id x items
has-erase id x (some item ∷ items) = elim (Bool-cases (bytes_eq item id)) [
  | inl e ↦ ground (arith, has-erase id x items, same_test item id x e)
  | inr e ↦ elim (Bool-cases (bytes_eq item x)) [
    | inl e' ↦ elim (Bool-cases (bytes_eq id x)) [
      | inl e'' ↦
          let p = bytes_eq→eq item x e' in
          let q = bytes_eq→eq id x e'' in
          let bad : bytes_eq item id ≡ true = rw (p, q) (bytes_eq_refl x) in cc
      | inr e'' ↦ ground (arith, has-erase id x items)
    ]
    | inr e' ↦ ground (arith, has-erase id x items)
  ]
]

has-snoc :
    (id x : Identity) (items : List (Option Identity))
    → has x (items ++ some id ∷ []) ≡ (has x items || bytes_eq id x)
unfolding has is_item
has-snoc id x [] = ground arith
has-snoc id x (item ∷ items) = ground (arith, has-snoc id x items)

lookup-load_overrides :
    (doc : Doc) (x : Identity)
    → lookup (load_overrides doc) x ≡ (
        if has x (doc 4)
        then some 4
        else if has x (doc 3)
        then some 3
        else if has x (doc 2)
        then some 2
        else if has x (doc 1)
        then some 1
        else if has x (doc 0)
        then some 0
        else none)
unfolding load_overrides
lookup-load_overrides doc x = simp (lookup-load_list) (unfold lookup in refl)

has-save_one_same :
    (doc : Doc) (id x : Identity) (cls c : ℕ)
    → cls < 5
    → bytes_eq id x ≡ true
    → has x (save_one doc id cls c) ≡ (c == cls)
unfolding save_one list_of
has-save_one_same doc id x cls c h e = elim (Bool-cases (c == cls)) [
  | inl p ↦
      rw (lt→ltb cls 5 h, p)
        (ground (arith, has-snoc id x (erase id (doc c)), has-erase id x (doc c)))
  | inr p ↦ rw (lt→ltb cls 5 h, p) (ground (arith, has-erase id x (doc c)))
]

has-save_one_other :
    (doc : Doc) (id x : Identity) (cls c : ℕ)
    → bytes_eq id x ≡ false
    → has x (save_one doc id cls c) ≡ has x (doc c)
unfolding save_one
has-save_one_other doc id x cls c e = elim (Bool-cases (c == list_of cls)) [
  | inl p ↦ rw p (ground (arith, has-snoc id x (erase id (doc c)), has-erase id x (doc c)))
  | inr p ↦ rw p (ground (arith, has-erase id x (doc c)))
]

-- One override that is saved: its class for its name, and every other name as before.
pub lookup-save_one :
    (doc : Doc) (id x : Identity) (cls : ℕ)
    → cls < 5
    → lookup (load_overrides (save_one doc id cls)) x
      ≡ (if bytes_eq id x then some cls else lookup (load_overrides doc) x)
lookup-save_one doc id x cls h =
    lookup-load_overrides (save_one doc id cls) x ∙ (elim (Bool-cases (bytes_eq id x)) [
      | inl e ↦ ground (
        arith,
        e,
        has-save_one_same doc id x cls 4 h e,
        has-save_one_same doc id x cls 3 h e,
        has-save_one_same doc id x cls 2 h e,
        has-save_one_same doc id x cls 1 h e,
        has-save_one_same doc id x cls 0 h e,
      )
      | inr e ↦
          rw
            (
              e,
              has-save_one_other doc id x cls 4 e,
              has-save_one_other doc id x cls 3 e,
              has-save_one_other doc id x cls 2 e,
              has-save_one_other doc id x cls 1 e,
              has-save_one_other doc id x cls 0 e,
            )
            (sym (lookup-load_overrides doc x))
    ])
