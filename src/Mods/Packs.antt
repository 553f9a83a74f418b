-- ===== src/Mods/Packs.antt =====
-- The packs that are switched on, and what RT64 is given.
use hybrid_heaven_recomp.Prelude.{ℕ, List, [], ◌∷◌, leb, Table, set, erase_key, if◌then◌else◌}

-- By mod id, the file of each: `g_packs`, a vector in which each id stands once.
abbrev pub Packs : Type 0
Packs = Table (List ℕ)

-- `recomp::mods::get_mod_order_index`
abbrev pub Order : Type 0
Order = List ℕ → ℕ

-- `g_packs`, and the paths of the last `RT64_SetTexturePacks`.
pub record Mods : Type 0 where
  pub packs : Packs
  pub published : List (List ℕ)

unfoldable pub insert_pack : Order → List ℕ × List ℕ → Packs → Packs
insert_pack order pack [] = pack ∷ []
insert_pack order pack (first ∷ rest) =
    let later = insert_pack order pack rest in
    if leb (order pack.0) (order first.0) then pack ∷ first ∷ rest else first ∷ later

-- `std::sort` by the order of the mods.
unfoldable pub sort_packs : Order → Packs → Packs
sort_packs order [] = []
sort_packs order (pack ∷ rest) = insert_pack order pack (sort_packs order rest)

unfoldable pub paths : Packs → List (List ℕ)
paths [] = []
paths ((id, path) ∷ rest) = path ∷ paths rest

unfoldable pub publish : Order → Mods → Mods
publish order s = record s { published = paths (sort_packs order s.packs) }

unfoldable pub on_pack_enabled : Order → List ℕ → List ℕ → Mods → Mods
on_pack_enabled order id path s = publish order (record s { packs = set s.packs id path })

unfoldable pub on_pack_disabled : Order → List ℕ → Mods → Mods
on_pack_disabled order id s = publish order (record s { packs = erase_key s.packs id })

unfoldable pub on_packs_reordered : Order → Mods → Mods
on_packs_reordered order s = publish order s

unfoldable pub no_packs : Mods
no_packs = record { packs = []; published = [] }
