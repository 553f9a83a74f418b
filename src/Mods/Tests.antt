-- ===== src/Mods/Tests.antt =====
-- Two packs and a change of their order.
use hybrid_heaven_recomp.Prelude.{
  ℕ, ◌≡◌, refl, ◌-◌, none, List, [], ◌∷◌, bytes_eq, lookup, set, erase_key,
}
use hybrid_heaven_recomp.Mods.Packs.{
  Packs, Order, insert_pack, sort_packs, paths, publish, on_pack_enabled, on_pack_disabled,
  on_packs_reordered, no_packs,
}
use hybrid_heaven_recomp.Mods.Published.{
  ModEvent, enabled, disabled, reordered, handle, handle_all, concerned, file_after, IsDistinct,
  IsSorted, handle_all-published,
}

abbrev first_letter : Order
first_letter [] = 0
first_letter (c ∷ cs) = c

abbrev reversed : Order
reversed [] = 256
reversed (c ∷ cs) = 256 - c

abbrev two_packs : List (Order × ModEvent)
two_packs =
    (first_letter, enabled (b'b' ∷ []) (b'B' ∷ []))
    ∷ (first_letter, enabled (b'a' ∷ []) (b'A' ∷ []))
    ∷ (first_letter, enabled (b'b' ∷ []) (b'C' ∷ []))
    ∷ []

orders :
    ((handle_all two_packs no_packs).published ≡ (b'A' ∷ []) ∷ (b'C' ∷ []) ∷ [])
    × ((handle reversed reordered (handle_all two_packs no_packs)).published
        ≡ (b'C' ∷ []) ∷ (b'A' ∷ []) ∷ [])
    × ((handle reversed (disabled (b'a' ∷ [])) (handle_all two_packs no_packs)).published
        ≡ (b'C' ∷ []) ∷ [])
unfolding handle_all handle on_pack_enabled on_pack_disabled on_packs_reordered publish paths
    sort_packs insert_pack set erase_key bytes_eq no_packs
orders = (refl, refl, refl)

handle_all-published_example :
    (packs : Packs) × ((handle reversed reordered (handle_all two_packs no_packs)).published
      ≡ paths packs)
    × IsSorted reversed packs
    × IsDistinct packs
    × ((x : List ℕ) → lookup packs x ≡ concerned x reordered (file_after x two_packs none))
handle_all-published_example = handle_all-published two_packs reversed reordered
