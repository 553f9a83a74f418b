-- ===== src/Prelude/Assoc.antt =====
-- Tables from names to values, as their entries in the order of their iteration, each name once.
use mathlib.Core.Path.{◌≡◌, refl, ap, ◌∙◌}
use mathlib.Core.Logic.{inl, inr}
use mathlib.Core.Bool.{true, false}
use mathlib.Core.Option.{Option, none, some}
use mathlib.Core.List.{List, [], ◌∷◌}
use native.Mathlib.Omega.{arith}
use Prim.Native.Nat.{ℕ}
use hybrid_heaven_recomp.Prelude.Tests.{if◌then◌else◌, Bool-cases}
use hybrid_heaven_recomp.Prelude.Lists.{bytes_eq, bytes_eq→eq, bytes_eq_refl}

abbrev pub Table {ℓ} : Type ℓ → Type ℓ
Table A = List (List ℕ × A)

pub same_test : (key id x : List ℕ) → bytes_eq key id ≡ true → bytes_eq key x ≡ bytes_eq id x
same_test key id x e = ap (λ k. bytes_eq k x) (bytes_eq→eq key id e)

-- Of two names, a third is at most one.
pub apart :
    (key id x : List ℕ) → bytes_eq key id ≡ false → bytes_eq key x ≡ true → bytes_eq id x ≡ false
apart key id x e e' = elim (Bool-cases (bytes_eq id x)) [
  | inl e'' ↦
      let p = bytes_eq→eq key x e' in
      let q = bytes_eq→eq id x e'' in
      let bad : bytes_eq key id ≡ true = rw (p, q) (bytes_eq_refl x) in absurd cc
  | inr e'' ↦ e''
]

module _ {ℓ} {A : Type ℓ} where
  unfoldable pub lookup : Table A → List ℕ → Option A
  unfolding bytes_eq
  lookup [] id = none
  lookup ((key, cls) ∷ rest) id =
      let later = lookup rest id in if bytes_eq key id then some cls else later

  -- `map[id] = cls`
  unfoldable pub set : Table A → List ℕ → A → Table A
  unfolding bytes_eq
  set [] id cls = (id, cls) ∷ []
  set ((key, old) ∷ rest) id cls =
      let later = set rest id cls in
      if bytes_eq key id then (key, cls) ∷ rest else (key, old) ∷ later

  -- `map.erase(id)`
  unfoldable pub erase_key : Table A → List ℕ → Table A
  unfolding bytes_eq
  erase_key [] id = []
  erase_key ((key, cls) ∷ rest) id =
      let later = erase_key rest id in if bytes_eq key id then later else (key, cls) ∷ later

  pub lookup-set :
      (table : Table A) (id x : List ℕ) (cls : A)
      → lookup (set table id cls) x ≡ (if bytes_eq id x then some cls else lookup table x)
  unfolding lookup set
  lookup-set [] id x cls = refl
  lookup-set ((key, old) ∷ rest) id x cls = elim (Bool-cases (bytes_eq key id)) [
    | inl e ↦ ground (arith, same_test key id x e)
    | inr e ↦ elim (Bool-cases (bytes_eq key x)) [
      | inl e' ↦ rw (e, apart key id x e e') (ground (arith, e'))
      | inr e' ↦ ground (arith, lookup-set rest id x cls)
    ]
  ]

  pub lookup-erase_key :
      (table : Table A) (id x : List ℕ)
      → lookup (erase_key table id) x ≡ (if bytes_eq id x then none else lookup table x)
  unfolding lookup erase_key
  lookup-erase_key [] id x = elim (Bool-cases (bytes_eq id x)) [
    | inl e ↦ rw e refl
    | inr e ↦ rw e refl
  ]
  lookup-erase_key ((key, cls) ∷ rest) id x = elim (Bool-cases (bytes_eq key id)) [
    | inl e ↦ ground (arith, same_test key id x e, lookup-erase_key rest id x)
    | inr e ↦ elim (Bool-cases (bytes_eq key x)) [
      | inl e' ↦ rw (e, apart key id x e e') (ground (arith, e'))
      | inr e' ↦ ground (arith, lookup-erase_key rest id x)
    ]
  ]

  pub set_fresh :
      (key id : List ℕ) (cls : A) (rest : Table A)
      → bytes_eq key id ≡ false
      → lookup rest key ≡ none
      → lookup (set rest id cls) key ≡ none
  set_fresh key id cls rest e fresh =
      lookup-set rest id key cls
      ∙ (ap (λ b. if b then some cls else lookup rest key) (apart key id key e (bytes_eq_refl key))
          ∙ fresh)
