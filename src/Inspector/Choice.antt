-- ===== src/Inspector/Choice.antt =====
-- What the panel chooses is what an element is drawn with from then on.
use hybrid_heaven_recomp.Prelude.{
  lookup, set, lookup-set, lookup-erase_key, ℕ, ◌≡◌, inl, inr, refl, sym, ap, ◌∙◌, Bool, true,
  false, not, Option, none, some, List, [], ◌∷◌, bytes_eq, if◌then◌else◌, Bool-cases, arith,
}
use hybrid_heaven_recomp.Inspector.Overrides.{
  Identity, Overrides, is_empty, Doc, init, override_class, builtin_class, overridden, class_for,
  Inspector,
}
use hybrid_heaven_recomp.Inspector.Panel.{choose, as_classified, clear_overrides}

-- The flag that is read without the lock says whether the table has an entry.
pub IsFlagged : Inspector → Type 0
IsFlagged s = s.any ≡ not (is_empty s.overrides)

is_empty-set : (table : Overrides) (id : Identity) (cls : ℕ) → is_empty (set table id cls) ≡ false
unfolding set
is_empty-set [] id cls = refl
is_empty-set ((key, old) ∷ rest) id cls = elim (Bool-cases (bytes_eq key id)) [
  | inl e ↦ rw e refl
  | inr e ↦ rw e refl
]

pub data Edit : Type 0 where
  pick : Identity → ℕ → Edit
  back : Identity → Edit
  clear : Edit

unfoldable pub edit : Edit → Inspector → Inspector
edit (pick id cls) s = choose id cls s
edit (back id) s = as_classified id s
edit clear s = clear_overrides s

unfoldable pub edits : List Edit → Inspector → Inspector
edits [] s = s
edits (e ∷ es) s = edits es (edit e s)

edit-IsFlagged : (e : Edit) (s : Inspector) → IsFlagged (edit e s)
unfolding edit IsFlagged choose as_classified clear_overrides
edit-IsFlagged (pick id cls) s = rw (is_empty-set s.overrides id cls) refl
edit-IsFlagged (back id) s = refl
edit-IsFlagged clear s = refl

edit-enabled : (e : Edit) (s : Inspector) → (edit e s).enabled ≡ s.enabled
unfolding edit choose as_classified clear_overrides
edit-enabled (pick id cls) s = refl
edit-enabled (back id) s = refl
edit-enabled clear s = refl

lookup_empty :
    (table : Overrides) (id : Identity) → not (is_empty table) ≡ false → lookup table id ≡ none
unfolding lookup
lookup_empty [] id h = refl
lookup_empty (o ∷ os) id h = absurd cc

-- With the flag right, the lookup behind it is the table's.
override_class-lookup :
    (s : Inspector) (id : Identity)
    → s.enabled ≡ true
    → IsFlagged s
    → override_class s id ≡ lookup s.overrides id
unfolding override_class IsFlagged
override_class-lookup s id on h = elim (Bool-cases s.any) [
  | inl e ↦ ground (arith, on, e)
  | inr e ↦ ground (arith, on, e, lookup_empty s.overrides id (h⁻ s h e))
]
  where
    h⁻ :
        (t : Inspector)
        → t.any ≡ not (is_empty t.overrides)
        → t.any ≡ false
        → not (is_empty t.overrides) ≡ false
    h⁻ t k e = cc

-- The class of a name after an edit, from the class before it.
after_edit : Overrides → Identity → Edit → ℕ → ℕ
after_edit builtin x (pick id k) cls = if bytes_eq id x then k else cls
after_edit builtin x (back id) cls = if bytes_eq id x then builtin_class builtin x else cls
after_edit builtin x clear cls = builtin_class builtin x

-- The class that a name has after these edits: of those that concern it, the last one's.
pub latest : Overrides → Identity → List Edit → ℕ → ℕ
latest builtin x [] cls = cls
latest builtin x (e ∷ es) cls = latest builtin x es (after_edit builtin x e cls)

module _ (builtin : Overrides) (x : Identity) where
  class_for-lookup :
      (s : Inspector)
      → s.enabled ≡ true
      → IsFlagged s
      → class_for builtin s x ≡ overridden (builtin_class builtin x) (lookup s.overrides x)
  unfolding class_for
  class_for-lookup s on h =
      ap (overridden (builtin_class builtin x)) (override_class-lookup s x on h)

  overridden-if :
      (b : Bool) (cls : ℕ) (p q : Option ℕ)
      → overridden cls (if b then p else q) ≡ (if b then overridden cls p else overridden cls q)
  overridden-if true cls p q = refl
  overridden-if false cls p q = refl

  lookup-edit :
      (e : Edit) (s : Inspector)
      → overridden (builtin_class builtin x) (lookup (edit e s).overrides x)
        ≡ after_edit builtin x e (overridden (builtin_class builtin x) (lookup s.overrides x))
  unfolding edit choose as_classified clear_overrides after_edit overridden lookup
  lookup-edit (pick id k) s =
      ap (overridden (builtin_class builtin x)) (lookup-set s.overrides id x k)
      ∙ overridden-if (bytes_eq id x) (builtin_class builtin x) (some k) (lookup s.overrides x)
  lookup-edit (back id) s =
      ap (overridden (builtin_class builtin x)) (lookup-erase_key s.overrides id x)
      ∙ overridden-if (bytes_eq id x) (builtin_class builtin x) none (lookup s.overrides x)
  lookup-edit clear s = refl

  -- After any edits in the panel, starting from an inspector that is on and whose flag is right, an element
  -- is drawn with the class of the last edit that concerns it: the one picked, or the build's after it was
  -- put back or the table was cleared; where none does, with the class it had. The flag is right again.
  pub class_for-edits :
      (es : List Edit) (s : Inspector)
      → s.enabled ≡ true
      → IsFlagged s
      → (class_for builtin (edits es s) x ≡ latest builtin x es (class_for builtin s x))
        × IsFlagged (edits es s)
  unfolding edits latest
  class_for-edits [] s on h = (refl, h)
  class_for-edits (e ∷ es) s on h =
      let on' = edit-enabled e s ∙ on in
      let h' = edit-IsFlagged e s in
      let (p, q) = class_for-edits es (edit e s) on' h' in
      let step : class_for builtin (edit e s) x ≡ after_edit builtin x e (class_for builtin s x) =
        class_for-lookup (edit e s) on' h'
        ∙ lookup-edit e s
        ∙ ap (after_edit builtin x e) (sym (class_for-lookup s on h)) in
      (p ∙ ap (latest builtin x es) step, q)

-- What is loaded at startup has the flag right.
pub init-IsFlagged : (on : Bool) (doc : Option Doc) → IsFlagged (init on doc)
unfolding init IsFlagged
init-IsFlagged false doc = refl
init-IsFlagged true none = refl
init-IsFlagged true (some doc) = refl
