-- ===== src/Census/Tests.antt =====
-- Walks of small lists.
use hybrid_heaven_recomp.Prelude.{
  Floats, ℕ, ◌+◌, ◌-◌, ◌*◌, ◌≡◌, refl, pos, negsuc, Bool, true, false, [], ◌∷◌, ◌==◌, ltb, leb,
  update, arith,
}
use hybrid_heaven_recomp.Hud.Memory.{Rdram, read_word, write_commands}
use hybrid_heaven_recomp.Hud.Writer.{physical}
use hybrid_heaven_recomp.Census.State.{op_of, is_stray, Texts, Census, start_core, start_report}
use hybrid_heaven_recomp.Census.Geometry.{fixed_element, half_of, int32}
use hybrid_heaven_recomp.Census.Commands.{snap_to, write_word, snap, core_step}
use hybrid_heaven_recomp.Census.Walk.{
  counted, strayed, count_command, set_list, set_ident, enter_feed, enter, leave, perform, walk_dl,
  walk_command, round, walk_from, walk, start_feed, frame_census, per_frame, wanted,
}
use hybrid_heaven_recomp.Census.Snaps.{Snapping, per_frame-Snapping}
use hybrid_heaven_recomp.Census.Bounded.{IsBounded, walk-IsBounded}

-- Whole numbers in place of doubles, and no text.
abbrev whole : Floats ℕ
whole = record {
  int = λ n. elim n [ pos m ↦ m | negsuc m ↦ 0 ];
  add = λ a b. a + b;
  sub = λ a b. a - b;
  mul = λ a b. a * b;
  div = λ a b. a;
  neg = λ a. a;
  lt = ltb;
  le = leb;
  eq = λ a b. a == b;
  atan = λ a. a;
  float = λ a. a;
  pi = 3;
}

abbrev silent_texts : Texts ℕ
silent_texts = record {
  viewport_text = λ a b c d. [];
  scissor_text = λ a b c d e. a ∷ b ∷ c ∷ d ∷ e ∷ [];
  persp_text = λ l a b c d. [];
  ortho_text = λ l a b c d. a ∷ b ∷ c ∷ d ∷ [];
}

abbrev empty_memory : Rdram
empty_memory phys = 0

-- A scissor of the low resolution with mode 1, a call of a list with two triangles, and the end.
abbrev scissor_list : Rdram
scissor_list =
    write_commands
      (write_commands empty_memory 0x1000
        ((0xED04_0020, 0x014C_03A0) ∷ (0xDE00_0000, 0x8000_2000) ∷ (0xDF00_0000, 0) ∷ []))
      0x2000 ((0x0600_0204, 0x0000_0406) ∷ (0xDF00_0000, 0) ∷ [])

abbrev list_start : ℕ
list_start = 0x8000_1000

snapped_scissor :
    (read_word (per_frame whole silent_texts true false scissor_list list_start).0 0x1000
      ≡ 0xED00_0000)
    × (read_word (per_frame whole silent_texts true false scissor_list list_start).0 0x1004
        ≡ 0x0150_03C0)
    × ((frame_census whole silent_texts true false scissor_list list_start).core.tris ≡ 2)
    × ((frame_census whole silent_texts true false scissor_list list_start).core.commands ≡ 5)
unfolding per_frame frame_census walk walk_from round walk_command walk_dl perform count_command
    counted enter enter_feed leave set_list set_ident snap_to snap write_word core_step op_of
    is_stray read_word write_commands physical start_core start_feed strayed
snapped_scissor = (refl, refl, refl, refl)

-- The element of the identity's diagonal in 16.16 fixed point, and a negative one.
fixed_one : fixed_element (update empty_memory 0x1000 0x0001_0000) 0x1000 0 ≡ pos 0x1_0000
unfolding fixed_element half_of int32 read_word
fixed_one = refl

fixed_minus : fixed_element (update empty_memory 0x1000 0x0000_FFFF) 0x1000 1 ≡ negsuc 0xFFFF
unfolding fixed_element half_of int32 read_word
fixed_minus = refl

every_third : (wanted (pos 3) 6 ≡ (true, 7)) × (wanted (pos 3) 7 ≡ (false, 8))
unfolding wanted
every_third = (refl, refl)

per_frame-Snapping_example :
    Snapping scissor_list 0
      (per_frame whole silent_texts true true scissor_list list_start).0
      (frame_census whole silent_texts true true scissor_list list_start).core.snapped
    × ((per_frame whole silent_texts false true scissor_list list_start).0 ≡ scissor_list)
per_frame-Snapping_example = per_frame-Snapping whole silent_texts true scissor_list list_start

abbrev start_of : Bool → Census ℕ
start_of hud = record {
  core = start_core scissor_list true;
  report = start_report;
  feed = start_feed whole hud;
}

start_of-IsBounded : IsBounded whole (start_of true)
unfolding start_core start_report start_feed
start_of-IsBounded = record {
  moved = omega arith;
  tables = record { projection = tt; scissor = tt; one_each = refl; rectangles = tt };
  feeds = record { depth = omega arith; few = omega arith; distinct = tt };
}

walk-IsBounded_example : IsBounded whole (walk whole silent_texts 13 (start_of true) list_start)
walk-IsBounded_example =
    walk-IsBounded whole silent_texts 13 (start_of true) list_start start_of-IsBounded
