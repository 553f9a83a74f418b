-- ===== src/Mods/Published.antt =====
-- RT64 is given the packs that are on, in the order of the mods.
use hybrid_heaven_recomp.Prelude.{
  ℕ, ◌≡◌, ◌≤◌, inl, inr, refl, sym, ap, ◌∙◌, Bool, true, false, Option, none, some, List, [], ◌∷◌,
  leb, bytes_eq, bytes_eq_refl, Bool-cases, leb→le, arith, if◌then◌else◌, lookup, set, erase_key,
  lookup-set, lookup-erase_key, set_fresh, apart,
}
use hybrid_heaven_recomp.Mods.Packs.{
  Packs, Order, Mods, insert_pack, sort_packs, paths, publish, on_pack_enabled, on_pack_disabled,
  on_packs_reordered, no_packs,
}

pub data ModEvent : Type 0 where
  enabled : List ℕ → List ℕ → ModEvent
  disabled : List ℕ → ModEvent
  reordered : ModEvent

unfoldable pub handle : Order → ModEvent → Mods → Mods
handle order (enabled id path) s = on_pack_enabled order id path s
handle order (disabled id) s = on_pack_disabled order id s
handle order reordered s = on_packs_reordered order s

-- Each event with the order of the mods at its time.
unfoldable pub handle_all : List (Order × ModEvent) → Mods → Mods
handle_all [] s = s
handle_all ((order, e) ∷ es) s = handle_all es (handle order e s)

-- The file of a mod after an event, if the mod is on.
unfoldable pub concerned : List ℕ → ModEvent → Option (List ℕ) → Option (List ℕ)
concerned x (enabled id path) file = if bytes_eq id x then some path else file
concerned x (disabled id) file = if bytes_eq id x then none else file
concerned x reordered file = file

unfoldable pub file_after : List ℕ → List (Order × ModEvent) → Option (List ℕ) → Option (List ℕ)
file_after x [] file = file
file_after x ((order, e) ∷ es) file = file_after x es (concerned x e file)

-- Each id once.
unfoldable pub IsDistinct : Packs → Type 0
IsDistinct [] = Unit
IsDistinct ((id, path) ∷ rest) = (lookup rest id ≡ none) × IsDistinct rest

unfoldable pub AtLeast : Order → ℕ → Packs → Type 0
AtLeast order n [] = Unit
AtLeast order n ((id, path) ∷ rest) = (n ≤ order id) × AtLeast order n rest

unfoldable pub IsSorted : Order → Packs → Type 0
IsSorted order [] = Unit
IsSorted order ((id, path) ∷ rest) = AtLeast order (order id) rest × IsSorted order rest

set-IsDistinct :
    (packs : Packs) (id path : List ℕ) → IsDistinct packs → IsDistinct (set packs id path)
unfolding IsDistinct set
set-IsDistinct [] id path d = (unfold lookup in refl, d)
set-IsDistinct ((key, old) ∷ rest) id path (fresh, d) = elim (Bool-cases (bytes_eq key id)) [
  | inl e ↦ rw e (fresh, d)
  | inr e ↦ rw e (set_fresh key id path rest e fresh, set-IsDistinct rest id path d)
]

lookup_none : (b : Bool) (o : Option (List ℕ)) → o ≡ none → (if b then none else o) ≡ none
lookup_none true o e = refl
lookup_none false o e = e

erase_key-IsDistinct :
    (packs : Packs) (id : List ℕ) → IsDistinct packs → IsDistinct (erase_key packs id)
unfolding IsDistinct erase_key
erase_key-IsDistinct [] id d = d
erase_key-IsDistinct ((key, old) ∷ rest) id (fresh, d) = elim (Bool-cases (bytes_eq key id)) [
  | inl e ↦ rw e (erase_key-IsDistinct rest id d)
  | inr e ↦ rw e (
    lookup-erase_key rest id key ∙ lookup_none (bytes_eq id key) (lookup rest key) fresh,
    erase_key-IsDistinct rest id d,
  )
]

fresh_tail :
    (key old id : List ℕ) (rest : Packs)
    → lookup ((key, old) ∷ rest) id ≡ none
    → (bytes_eq key id ≡ false) × (lookup rest id ≡ none)
unfolding lookup
fresh_tail key old id rest fresh = elim (Bool-cases (bytes_eq key id)) [
  | inl e ↦
      let bad : some old ≡ none =
        sym (ap (λ b. if b then some old else lookup rest id) e) ∙ fresh in
      absurd cc
  | inr e ↦ (e, sym (ap (λ b. if b then some old else lookup rest id) e) ∙ fresh)
]

module _ (order : Order) where
  lookup-insert_pack :
      (id path : List ℕ) (packs : Packs) (x : List ℕ)
      → lookup packs id ≡ none
      → lookup (insert_pack order (id, path) packs) x
        ≡ (if bytes_eq id x then some path else lookup packs x)
  unfolding lookup insert_pack
  lookup-insert_pack id path [] x fresh = refl
  lookup-insert_pack id path ((key, old) ∷ rest) x fresh =
      let (other, fresh') = fresh_tail key old id rest fresh in
      elim (Bool-cases (leb (order id) (order key))) [
        | inl e ↦ rw e refl
        | inr e ↦ elim (Bool-cases (bytes_eq key x)) [
          | inl e' ↦ rw (e, e', apart key id x other e') refl
          | inr e' ↦ rw (e, e') (lookup-insert_pack id path rest x fresh')
        ]
      ]

  insert_pack-IsDistinct :
      (id path : List ℕ) (packs : Packs)
      → lookup packs id ≡ none
      → IsDistinct packs
      → IsDistinct (insert_pack order (id, path) packs)
  unfolding IsDistinct insert_pack
  insert_pack-IsDistinct id path [] fresh d = (unfold lookup in refl, d)
  insert_pack-IsDistinct id path ((key, old) ∷ rest) fresh (old_fresh, d) =
      let (other, fresh') = fresh_tail key old id rest fresh in
      elim (Bool-cases (leb (order id) (order key))) [
        | inl e ↦ rw e (fresh, (old_fresh, d))
        | inr e ↦ rw e (
          lookup-insert_pack id path rest key fresh'
              ∙ (ap (λ b. if b then some path else lookup rest key)
                    (apart key id key other (bytes_eq_refl key))
                  ∙ old_fresh),
          insert_pack-IsDistinct id path rest fresh' d,
        )
      ]

  AtLeast-insert_pack :
      (n : ℕ) (id path : List ℕ) (packs : Packs)
      → n ≤ order id
      → AtLeast order n packs
      → AtLeast order n (insert_pack order (id, path) packs)
  unfolding AtLeast insert_pack
  AtLeast-insert_pack n id path [] h a = (h, tt)
  AtLeast-insert_pack n id path ((key, old) ∷ rest) h (h', a) =
      elim (Bool-cases (leb (order id) (order key))) [
        | inl e ↦ rw e (h, (h', a))
        | inr e ↦ rw e (h', AtLeast-insert_pack n id path rest h a)
      ]

  AtLeast-trans : (m n : ℕ) (packs : Packs) → m ≤ n → AtLeast order n packs → AtLeast order m packs
  unfolding AtLeast
  AtLeast-trans m n [] h a = a
  AtLeast-trans m n ((id, path) ∷ rest) h (h', a) = (omega arith, AtLeast-trans m n rest h a)

  insert_pack-IsSorted :
      (id path : List ℕ) (packs : Packs)
      → IsSorted order packs
      → IsSorted order (insert_pack order (id, path) packs)
  unfolding IsSorted insert_pack
  insert_pack-IsSorted id path [] s = (unfold AtLeast in tt, tt)
  insert_pack-IsSorted id path ((key, old) ∷ rest) (a, s) =
      elim (Bool-cases (leb (order id) (order key))) [
        | inl e ↦
            let h = leb→le (order id) (order key) e in
            rw e (unfold AtLeast in (h, AtLeast-trans (order id) (order key) rest h a), (a, s))
        | inr e ↦
            let h : order key ≤ order id = ground (arith, e) in
            rw e (
              AtLeast-insert_pack (order key) id path rest h a,
              insert_pack-IsSorted id path rest s,
            )
      ]

  -- A sort keeps the packs, each once.
  sort_packs_lem :
      (packs : Packs)
      → IsDistinct packs
      → IsSorted order (sort_packs order packs)
        × IsDistinct (sort_packs order packs)
        × ((x : List ℕ) → lookup (sort_packs order packs) x ≡ lookup packs x)
  unfolding sort_packs IsDistinct lookup
  sort_packs_lem [] d = (unfold IsSorted in tt, tt, λ x. refl)
  sort_packs_lem ((id, path) ∷ rest) (fresh, d) =
      let (sorted, distinct, same) = sort_packs_lem rest d in
      let fresh' = same id ∙ fresh in
      (
        insert_pack-IsSorted id path (sort_packs order rest) sorted,
        insert_pack-IsDistinct id path (sort_packs order rest) fresh' distinct,
        λ x.
            lookup-insert_pack id path (sort_packs order rest) x fresh'
            ∙ ap (λ o. if bytes_eq id x then some path else o) (same x),
      )

handle-packs :
    (order : Order) (e : ModEvent) (s : Mods)
    → IsDistinct s.packs
    → IsDistinct (handle order e s).packs
      × ((x : List ℕ) → lookup (handle order e s).packs x ≡ concerned x e (lookup s.packs x))
      × ((handle order e s).published ≡ paths (sort_packs order (handle order e s).packs))
unfolding handle concerned on_pack_enabled on_pack_disabled on_packs_reordered publish
handle-packs order (enabled id path) s d =
    (set-IsDistinct s.packs id path d, λ x. lookup-set s.packs id x path, refl)
handle-packs order (disabled id) s d =
    (erase_key-IsDistinct s.packs id d, λ x. lookup-erase_key s.packs id x, refl)
handle-packs order reordered s d = (d, λ x. refl, refl)

handle_all-packs :
    (es : List (Order × ModEvent)) (s : Mods)
    → IsDistinct s.packs
    → IsDistinct (handle_all es s).packs
      × ((x : List ℕ) → lookup (handle_all es s).packs x ≡ file_after x es (lookup s.packs x))
unfolding handle_all file_after
handle_all-packs [] s d = (d, λ x. refl)
handle_all-packs ((order, e) ∷ es) s d =
    let (d', after, gone) = handle-packs order e s d in
    let (d'', rest) = handle_all-packs es (handle order e s) d' in
    (d'', λ x. rest x ∙ ap (file_after x es) (after x))

-- After any events from the start, the last under the order `order`: RT64 has last been given the files
-- of a table with each mod once, in that order of the mods, in which exactly the mods that are on stand,
-- each with the file of its last switch to on.
pub handle_all-published :
    (es : List (Order × ModEvent)) (order : Order) (e : ModEvent)
    → let s = handle order e (handle_all es no_packs) in
      (packs : Packs) × (s.published ≡ paths packs)
      × IsSorted order packs
      × IsDistinct packs
      × ((x : List ℕ) → lookup packs x ≡ concerned x e (file_after x es none))
unfolding no_packs lookup
handle_all-published es order e =
    let (d, before) = handle_all-packs es no_packs (unfold IsDistinct in tt) in
    let (d', after, given) = handle-packs order e (handle_all es no_packs) d in
    let (sorted, distinct, same) =
      sort_packs_lem order (handle order e (handle_all es no_packs)).packs d' in
    (
      sort_packs order (handle order e (handle_all es no_packs)).packs,
      given,
      sorted,
      distinct,
      λ x. same x ∙ (after x ∙ ap (concerned x e) (before x)),
    )
