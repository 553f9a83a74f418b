-- ===== src/Census/Bounded.antt =====
-- The walk keeps every index of the census within its table.
pub mod Tables
pub mod Feeds
use hybrid_heaven_recomp.Prelude.{
  Floats, ℕ, ◌+◌, ◌/◌, ◌^◌, ◌≤◌, ◌≡◌, inl, inr, refl, Bool, true, false, Option, none, some, List,
  [], ◌∷◌, ◌++◌, ◌==◌, ltb, if◌then◌else◌, length, length-append, arith, Bool-cases, ltb→lt,
}
use hybrid_heaven_recomp.Hud.Memory.{Rdram, read_word}
use hybrid_heaven_recomp.Census.State.{
  start_core, start_report, Op, vtx, tri1, tri2, quad, mtx, pop_mtx, move_word, move_mem, dl,
  end_dl, tex_rect, set_scissor, fill_rect, set_fill_color, set_t_img, set_c_img, other, Texts,
  Core, Report, Feed, Census, start_core, start_report,
}
use hybrid_heaven_recomp.Census.Commands.{snaps, snap_to, snap, core_step}
use hybrid_heaven_recomp.Census.Walk.{
  frame_census, start_feed, counted, strayed, set_list, set_ident, count_command, enter_feed, enter,
  leave, perform, walk, start_feed, frame_census, run,
}
use hybrid_heaven_recomp.Census.Steps.{Closed, walk-R}
use hybrid_heaven_recomp.Census.Bounded.Tables.{InTables, either-holds, report_step-InTables}
use hybrid_heaven_recomp.Census.Bounded.Feeds.{InBounds, kept, feed_step-InBounds}

pub record IsBounded {F : Type 0} (fl : Floats F) (s : Census F) : Type 0 where
  pub moved : length s.core.movewords ≤ 8
  pub tables : InTables s.report
  pub feeds : InBounds fl s.feed

few_movewords :
    (xs : List (ℕ × ℕ)) (x : ℕ × ℕ)
    → length xs ≤ 8
    → length (if ltb (length xs) 8 then xs ++ x ∷ [] else xs) ≤ 8
few_movewords xs x h = elim (Bool-cases (ltb (length xs) 8)) [
  | inl e ↦ rw e (omega (arith, length-append xs (x ∷ []), ltb→lt _ _ e))
  | inr e ↦ rw e h
]

snap-moved : (o : Option (ℕ × ℕ)) (at : ℕ) (s : Core) → (snap o at s).movewords ≡ s.movewords
unfolding snap
snap-moved none at s = refl
snap-moved (some (n0, n1)) at s = refl

core_step-moved :
    (op : Op) (at w0 w1 : ℕ) (s : Core)
    → length s.movewords ≤ 8
    → length (core_step op at w0 w1 s).movewords ≤ 8
unfolding core_step
core_step-moved move_word at w0 w1 s h = few_movewords s.movewords (w0, w1) h
core_step-moved set_scissor at w0 w1 s h =
    either-holds (λ t. length t.movewords ≤ 8) s.writable (snap (snap_to snaps w0 w1) at s) s
      (rw (snap-moved (snap_to snaps w0 w1) at s) h) h
core_step-moved vtx at w0 w1 s h = h
core_step-moved tri1 at w0 w1 s h = h
core_step-moved tri2 at w0 w1 s h = h
core_step-moved quad at w0 w1 s h = h
core_step-moved mtx at w0 w1 s h = h
core_step-moved pop_mtx at w0 w1 s h = h
core_step-moved move_mem at w0 w1 s h = h
core_step-moved dl at w0 w1 s h = h
core_step-moved end_dl at w0 w1 s h = h
core_step-moved tex_rect at w0 w1 s h = h
core_step-moved fill_rect at w0 w1 s h = h
core_step-moved set_fill_color at w0 w1 s h = h
core_step-moved set_t_img at w0 w1 s h = h
core_step-moved set_c_img at w0 w1 s h = h
core_step-moved other at w0 w1 s h = h

module _ {F : Type 0} (fl : Floats F) (texts : Texts F) where
  Keeps : Census F → Census F → Type 0
  Keeps s t = IsBounded fl s → IsBounded fl t

  bounds : Closed fl texts Keeps
  unfolding Keeps perform counted count_command strayed set_list set_ident enter_feed enter leave
  bounds = record {
    here = λ s b. b;
    also = λ s t u f g b. g (f b);
    performs = λ op at s b. record {
      moved = core_step-moved op at _ _ s.core b.moved;
      tables = report_step-InTables fl texts op _ _ s.core s.feed.hud s.report b.tables;
      feeds = feed_step-InBounds fl op _ _ s.core s.feed b.feeds;
    };
    counts = λ s b. record { moved = b.moved; tables = b.tables; feeds = b.feeds };
    strays = λ address s b. record { moved = b.moved; tables = b.tables; feeds = b.feeds };
    enters = λ w1 s b. record {
      moved = b.moved;
      tables = b.tables;
      feeds =
          either-holds (InBounds fl) s.feed.hud _ s.feed
            (kept fl s.feed _ b.feeds.depth refl b.feeds) b.feeds;
    };
    leaves = λ caller ident s b. record {
      moved = b.moved;
      tables = b.tables;
      feeds = kept fl s.feed _ b.feeds.depth refl b.feeds;
    };
  }

  -- A walk from any state whose tables are in bounds ends in one: the current projection and scissor and
  -- every rectangle's scissor index their tables, each projection has its count of triangles, the matrix
  -- stack is at most 17 deep, at most 256 elements are noted, no two of one name and kind, and at most
  -- eight G_MOVEWORDs are kept.
  pub walk-IsBounded :
      (left : ℕ) (s : Census F) (address : ℕ)
      → IsBounded fl s
      → IsBounded fl (walk fl texts left s address)
  unfolding Keeps
  walk-IsBounded left s address b = walk-R fl texts Keeps bounds left s address b

  -- The elements of any frame are within their bound.
  pub few_elements :
      (snap hud : Bool) (rdram : Rdram) (list_address : ℕ)
      → length (frame_census fl texts snap hud rdram list_address).feed.elements ≤ 256
  unfolding frame_census start_core start_report start_feed
  few_elements snap hud rdram list_address =
      (walk-IsBounded 13 _ list_address (record {
        moved = omega arith;
        tables = record { projection = tt; scissor = tt; one_each = refl; rectangles = tt };
        feeds = record { depth = omega arith; few = omega arith; distinct = tt };
      })).feeds.few
