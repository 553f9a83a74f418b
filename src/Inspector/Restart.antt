-- ===== src/Inspector/Restart.antt =====
-- What is saved to hud.json comes back.
use hybrid_heaven_recomp.Prelude.{
  lookup, set, set_fresh, ℕ, ◌<◌, ◌≡◌, refl, ap, sym, ◌∙◌, inl, inr, true, false, Option, none,
  some, List, [], ◌∷◌, bytes_eq, bytes_eq→eq, if◌then◌else◌, arith, Bool-cases,
}
use hybrid_heaven_recomp.Inspector.Overrides.{
  Identity, Overrides, Doc, save_one, save_overrides, load_list, load_overrides, override_class,
  builtin_class, overridden, class_for, init, is_empty,
}
use hybrid_heaven_recomp.Inspector.Saved.{lookup-save_one}

-- Every name once, with a class of the enumeration.
unfoldable pub IsTable : Overrides → Type 0
IsTable [] = Unit
IsTable ((key, cls) ∷ rest) = (lookup rest key ≡ none) × (cls < 5) × IsTable rest

abbrev pub or_else : Option ℕ → Option ℕ → Option ℕ
or_else none o = o
or_else (some cls) o = some cls

-- The table stays one under `map[id] = cls`.
set-IsTable :
    (table : Overrides) (id : Identity) (cls : ℕ)
    → IsTable table
    → cls < 5
    → IsTable (set table id cls)
unfolding IsTable set
set-IsTable [] id cls t h = (unfold lookup in refl, h, t)
set-IsTable ((key, old) ∷ rest) id cls (fresh, small, t) h = elim (Bool-cases (bytes_eq key id)) [
  | inl e ↦ rw e (fresh, h, t)
  | inr e ↦ rw e (set_fresh key id cls rest e fresh, small, set-IsTable rest id cls t h)
]

load_list-IsTable :
    (table : Overrides) (c : ℕ) (items : List (Option Identity))
    → IsTable table
    → c < 5
    → IsTable (load_list table c items)
unfolding load_list
load_list-IsTable table c [] t h = t
load_list-IsTable table c (none ∷ items) t h = load_list-IsTable table c items t h
load_list-IsTable table c (some id ∷ items) t h =
    load_list-IsTable (set table id c) c items (set-IsTable table id c t h) h

-- Whatever hud.json holds, what is loaded has every name once and classes of the enumeration.
pub load_overrides-IsTable : (doc : Doc) → IsTable (load_overrides doc)
unfolding load_overrides
load_overrides-IsTable doc =
    load_list-IsTable _ 4 (doc 4)
      (load_list-IsTable _ 3 (doc 3)
        (load_list-IsTable _ 2 (doc 2)
          (load_list-IsTable _ 1 (doc 1)
            (load_list-IsTable [] 0 (doc 0) (unfold IsTable in tt) (omega arith)) (omega arith))
          (omega arith))
        (omega arith))
      (omega arith)

-- Overrides that are saved and loaded again, whatever hud.json held before and in whatever order the
-- map is iterated: each name has the class that was saved for it, also where the file had another, and
-- a name without an override keeps what the file had.
pub load_overrides-save_overrides :
    (doc : Doc) (table : Overrides) (x : Identity)
    → IsTable table
    → lookup (load_overrides (save_overrides doc table)) x
      ≡ or_else (lookup table x) (lookup (load_overrides doc) x)
unfolding save_overrides IsTable lookup
load_overrides-save_overrides doc [] x t = refl
load_overrides-save_overrides doc ((key, cls) ∷ rest) x (fresh, small, t) =
    let later = load_overrides-save_overrides (save_one doc key cls) rest x t in
    let first = lookup-save_one doc key x cls small in
    elim (Bool-cases (bytes_eq key x)) [
      | inl e ↦
          let gone : lookup rest x ≡ none = ap (lookup rest) (sym (bytes_eq→eq key x e)) ∙ fresh in
          rw e (
            later
            ∙ (ap (λ o. or_else o (lookup (load_overrides (save_one doc key cls)) x)) gone
                ∙ (first ∙ ap (λ b. if b then some cls else lookup (load_overrides doc) x) e)))
      | inr e ↦ rw e (
          later
          ∙ ap (or_else (lookup rest x))
              (first ∙ ap (λ b. if b then some cls else lookup (load_overrides doc) x) e))
    ]

not_empty :
    (table : Overrides) (x : Identity) (cls : ℕ)
    → lookup table x ≡ some cls
    → is_empty table ≡ false
unfolding lookup
not_empty [] x cls e = cc
not_empty (o ∷ os) x cls e = refl

override_class-init :
    (doc : Doc) (x : Identity) (cls : ℕ)
    → lookup (load_overrides doc) x ≡ some cls
    → override_class (init true (some doc)) x ≡ some cls
unfolding override_class init
override_class-init doc x cls e = rw (not_empty (load_overrides doc) x cls e) e

-- An override that was saved is the class that its element is drawn with after a restart, whatever
-- the built-in table and the old file say.
pub class_for-save_overrides :
    (builtin : Overrides) (doc : Doc) (table : Overrides) (x : Identity) (cls : ℕ)
    → IsTable table
    → lookup table x ≡ some cls
    → class_for builtin (init true (some (save_overrides doc table))) x ≡ cls
unfolding class_for
class_for-save_overrides builtin doc table x cls t e =
    let loaded : lookup (load_overrides (save_overrides doc table)) x ≡ some cls =
      load_overrides-save_overrides doc table x t
      ∙ ap (λ o. or_else o (lookup (load_overrides doc) x)) e in
    unfold overridden in
    ap (overridden (builtin_class builtin x))
      (override_class-init (save_overrides doc table) x cls loaded)
