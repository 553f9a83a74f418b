-- ===== src/Inspector/Panel.antt =====
-- What changes the table of overrides while the game runs: the panel's dropdown and its button, and the
-- test hook. The table that the build carries.
use hybrid_heaven_recomp.Prelude.{
  set, erase_key, ℕ, ◌+◌, ◌-◌, Bool, true, false, not, Option, none, some, List, [], ◌∷◌, ◌==◌, ltb,
  bytes_eq, if◌then◌else◌, take, drop,
}
use hybrid_heaven_recomp.Inspector.Overrides.{Identity, is_empty, Inspector}

-- A class in the dropdown of a row.
unfoldable pub choose : Identity → ℕ → Inspector → Inspector
choose id cls s = record s { overrides = set s.overrides id cls; any = true }

-- "as classified"
unfoldable pub as_classified : Identity → Inspector → Inspector
as_classified id s =
    let table = erase_key s.overrides id in
    record s { overrides = table; any = not (is_empty table) }

-- "Clear overrides"
unfoldable pub clear_overrides : Inspector → Inspector
clear_overrides s = record s { overrides = []; any = false }

-- The names of the classes in the order of their numbers.
unfoldable pub class_names : List (List ℕ)
class_names =
    (b'c' ∷ b'e' ∷ b'n' ∷ b't' ∷ b'e' ∷ b'r' ∷ [])
    ∷ (b'l' ∷ b'e' ∷ b'f' ∷ b't' ∷ [])
    ∷ (b'r' ∷ b'i' ∷ b'g' ∷ b'h' ∷ b't' ∷ [])
    ∷ (b's' ∷ b't' ∷ b'r' ∷ b'e' ∷ b't' ∷ b'c' ∷ b'h' ∷ [])
    ∷ (b's' ∷ b'p' ∷ b'i' ∷ b'l' ∷ b'l' ∷ [])
    ∷ []

-- `rfind` of a character, with the index of the first of these bytes and the last one found so far.
unfoldable pub rfind_from : ℕ → List ℕ → ℕ → Option ℕ → Option ℕ
rfind_from c [] i found = found
rfind_from c (b ∷ bs) i found = rfind_from c bs (i + 1) (if b == c then some i else found)

unfoldable pub rfind : ℕ → List ℕ → Option ℕ
rfind c bs = rfind_from c bs 0 none

-- The loop over the names.
unfoldable pub choose_named : List (List ℕ) → ℕ → Identity → List ℕ → Inspector → Inspector
unfolding bytes_eq
choose_named [] c id name s = s
choose_named (n ∷ ns) c id name s =
    choose_named ns (c + 1) id name (if bytes_eq name n then choose id c s else s)

-- `done`, and the table.
unfoldable pub run_override :
    (List ℕ → Bool) → List ℕ → Option ℕ → Option ℕ → Inspector → Bool × Inspector
run_override due spec none at s = (true, s)
run_override due spec (some eq) none s = (true, s)
run_override due spec (some eq) (some at) s =
    let chosen =
      choose_named class_names 0 (take eq spec) (take (at - eq - 1) (drop (eq + 1) spec)) s in
    if ltb at eq then (true, s) else if due (drop (at + 1) spec) then (true, chosen) else (false, s)

-- HH_TEST_HUD_OVERRIDE, where it is set; `due` is whether so many seconds, as `atof` reads them, have
-- passed since the first call.
unfoldable pub test_override :
    (List ℕ → Bool) → Option (List ℕ) → Bool × Inspector → Bool × Inspector
test_override due none (done, s) = (done, s)
test_override due (some spec) (true, s) = (true, s)
test_override due (some spec) (false, s) =
    run_override due spec (rfind b'=' spec) (rfind b'@' spec) s
