-- ===== src/Inspector/Overrides.antt =====
-- The table of overrides, the built-in one, and hud.json. The classes are the numbers of the
-- `enum Class`. hud.json is seen as its five lists, empty where it has none; an item that is no string
-- is `none`.
use hybrid_heaven_recomp.Prelude.{
  ℕ, Bool, true, false, not, ◌&&◌, ◌||◌, Option, none, some, List, [], ◌∷◌, ◌++◌, ◌==◌, ltb,
  bytes_eq, if◌then◌else◌, Table, lookup, set,
}

abbrev pub Identity : Type 0
Identity = List ℕ

abbrev pub Overrides : Type 0
Overrides = Table ℕ

-- The five lists of hud.json by their class: center, left, right, stretch, spill.
abbrev pub Doc : Type 0
Doc = ℕ → List (Option Identity)

-- The list that `class_name` names.
unfoldable pub list_of : ℕ → ℕ
list_of cls = if ltb cls 5 then cls else 0

-- `it->is_string() && it->get<std::string>() == identity`
unfoldable pub is_item : Identity → Option Identity → Bool
unfolding bytes_eq
is_item id none = false
is_item id (some item) = bytes_eq item id

unfoldable pub erase : Identity → List (Option Identity) → List (Option Identity)
erase id [] = []
erase id (item ∷ items) = let rest = erase id items in if is_item id item then rest else item ∷ rest

-- One override: out of every list, and into its own.
unfoldable pub save_one : Doc → Identity → ℕ → Doc
save_one doc id cls c =
    if c == list_of cls then erase id (doc c) ++ some id ∷ [] else erase id (doc c)

unfoldable pub save_overrides : Doc → Overrides → Doc
save_overrides doc [] = doc
save_overrides doc ((id, cls) ∷ rest) = save_overrides (save_one doc id cls) rest

unfoldable pub load_list : Overrides → ℕ → List (Option Identity) → Overrides
load_list table c [] = table
load_list table c (none ∷ items) = load_list table c items
load_list table c (some id ∷ items) = load_list (set table id c) c items

-- `init`: the five lists in turn.
unfoldable pub load_overrides : Doc → Overrides
load_overrides doc =
    load_list
      (load_list (load_list (load_list (load_list [] 0 (doc 0)) 1 (doc 1)) 2 (doc 2)) 3 (doc 3)) 4
      (doc 4)

-- `g_enabled`, `g_overrides` and `g_any_overrides`.
pub record Inspector : Type 0 where
  pub enabled : Bool
  pub overrides : Overrides
  pub any : Bool

-- The override, if there is one.
unfoldable pub override_class : Inspector → Identity → Option ℕ
override_class s id = if s.enabled && s.any then lookup s.overrides id else none

-- `builtin` is the table that the build carries.
unfoldable pub builtin_class : Overrides → Identity → ℕ
builtin_class builtin id = elim (lookup builtin id) [ none ↦ 0 | some cls ↦ cls ]

-- `cls`, after an override has been written to it or not.
unfoldable pub overridden : ℕ → Option ℕ → ℕ
overridden cls none = cls
overridden cls (some other) = other

unfoldable pub class_for : Overrides → Inspector → Identity → ℕ
class_for builtin s id = overridden (builtin_class builtin id) (override_class s id)

abbrev pub is_empty : Overrides → Bool
is_empty [] = true
is_empty (o ∷ os) = false

unfoldable pub any_classes : Overrides → Inspector → Bool
any_classes builtin s = s.enabled && (s.any || not (is_empty builtin))

-- `init`: HH_INSPECTOR is not 0, and hud.json if it could be read.
unfoldable pub init : Bool → Option Doc → Inspector
init false doc = record { enabled = false; overrides = []; any = false }
init true none = record { enabled = true; overrides = []; any = false }
init true (some doc) =
    let table = load_overrides doc in
    record { enabled = true; overrides = table; any = not (is_empty table) }
