-- ===== src/Inspector/Tests.antt =====
-- Overrides over a file, edits in the panel and a frame of one rectangle.
use hybrid_heaven_recomp.Prelude.{
  lookup, set, ℕ, ◌+◌, ◌-◌, ◌*◌, ◌%◌, ◌^◌, ◌≡◌, refl, pos, negsuc, true, false, none, some, List,
  [], ◌∷◌, ◌==◌, ltb, leb, bytes_eq, if◌then◌else◌, arith, Floats,
}
use hybrid_heaven_recomp.Hud.Memory.{Rdram, write_commands}
use hybrid_heaven_recomp.Census.State.{Texts, Element}
use hybrid_heaven_recomp.Census.Walk.{per_frame}
use hybrid_heaven_recomp.Inspector.Overrides.{
  Overrides, Doc, list_of, is_item, erase, save_one, save_overrides, load_overrides, init,
  class_for, Inspector,
}
use hybrid_heaven_recomp.Inspector.Panel.{
  rfind, rfind_from, class_names, choose, choose_named, run_override, test_override,
}
use hybrid_heaven_recomp.Inspector.Frames.{Frame, Frames, feed, shown}
use hybrid_heaven_recomp.Inspector.Restart.{IsTable, or_else, load_overrides-save_overrides}
use hybrid_heaven_recomp.Inspector.Choice.{
  IsFlagged, init-IsFlagged, Edit, pick, back, edits, latest, class_for-edits,
}
use hybrid_heaven_recomp.Inspector.Shown.{AllNoted, per_frame-published}

abbrev table : Overrides
table = (1 ∷ [], 2) ∷ (2 ∷ [], 0) ∷ (3 ∷ [], 4) ∷ []

table-IsTable : IsTable table
unfolding IsTable lookup bytes_eq
table-IsTable = (refl, omega arith, (refl, omega arith, (refl, omega arith, tt)))

abbrev doc : Doc
doc c =
    if c == 1
    then some (1 ∷ []) ∷ none ∷ some (9 ∷ []) ∷ []
    else if c == 4
    then some (2 ∷ []) ∷ []
    else []

restart_example :
    lookup (load_overrides (save_overrides doc table)) (1 ∷ [])
    ≡ or_else (lookup table (1 ∷ [])) (lookup (load_overrides doc) (1 ∷ []))
restart_example = load_overrides-save_overrides doc table (1 ∷ []) table-IsTable

saved_lists : save_overrides doc table 1 ≡ none ∷ some (9 ∷ []) ∷ []
unfolding save_overrides save_one list_of erase is_item bytes_eq
saved_lists = refl

abbrev fresh : Inspector
fresh = init true (some doc)

fresh_on : fresh.enabled ≡ true
unfolding init
fresh_on = refl

abbrev session : List Edit
session = pick (1 ∷ []) 2 ∷ pick (7 ∷ []) 3 ∷ back (1 ∷ []) ∷ []

class_for-edits_example :
    (class_for table (edits session fresh) (1 ∷ [])
      ≡ latest table (1 ∷ []) session (class_for table fresh (1 ∷ [])))
    × IsFlagged (edits session fresh)
class_for-edits_example =
    class_for-edits table (1 ∷ []) session fresh fresh_on (init-IsFlagged true (some doc))

-- "=left@5" of the element named 9, once its time has come.
by_hook :
    let (tested, s) =
      test_override
        (λ seconds. true)
        (some (9 ∷ b'=' ∷ b'l' ∷ b'e' ∷ b'f' ∷ b't' ∷ b'@' ∷ b'5' ∷ []))
        (false, record fresh { overrides = [] }) in
    (tested ≡ true) × (s.overrides ≡ (9 ∷ [], 1) ∷ [])
unfolding test_override run_override rfind rfind_from choose_named class_names choose set bytes_eq
    init
by_hook = (refl, refl)

abbrev empty_frame : Frame ℕ
empty_frame = record { game_state = 0; number = 0; elements = [] }

abbrev panel : Frames ℕ
panel = record {
  inspector = fresh;
  tested = false;
  building = empty_frame;
  published = empty_frame;
  frames = 0;
  hold = false;
  held = empty_frame;
}

abbrev doubles : Floats ℕ
doubles = record {
  int = λ n. elim n [ pos m ↦ m | negsuc m ↦ 0 ];
  add = λ a b. a + b;
  sub = λ a b. a - b;
  mul = λ a b. a * b;
  div = λ a b. a;
  neg = λ a. a;
  lt = ltb;
  le = leb;
  eq = λ a b. a == b;
  atan = λ a. a;
  float = λ a. a;
  pi = 3;
}

abbrev no_texts : Texts ℕ
no_texts = record {
  viewport_text = λ a b c d. [];
  scissor_text = λ a b c d e. [];
  persp_text = λ l a b c d. [];
  ortho_text = λ l a b c d. [];
}

-- A rectangle with a texture, and the end.
abbrev one_rect : Rdram
one_rect = write_commands (λ a. 0) 0x1000 ((0xE402_8028, 0x0000_8008) ∷ (0xDF00_0000, 0) ∷ [])

per_frame-published_example :
    (es : List (Element ℕ)) × ((per_frame doubles no_texts false true one_rect 0x8000_1000).1
      ≡ some es)
    × AllNoted table es (feed (λ seconds. true) none table es panel).published.elements
    × ((feed (λ seconds. true) none table es panel).published.number ≡ 1 % 2 ^ 64)
    × (shown (record (feed (λ seconds. true) none table es panel) { hold = true }) ≡ empty_frame)
per_frame-published_example =
    per_frame-published doubles no_texts false one_rect 0x8000_1000 (λ seconds. true) none table
      panel fresh_on
