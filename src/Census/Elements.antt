-- ===== src/Census/Elements.antt =====
-- The elements of a frame: `note` and `note_triangle`, and the list that `intern` keeps.
use hybrid_heaven_recomp.Prelude.{
  Floats, ℕ, suc, ◌%◌, Bool, true, false, not, ◌&&◌, ◌||◌, List, [], ◌∷◌, ◌==◌, ltb, bytes_eq,
  if◌then◌else◌, length,
}
use hybrid_heaven_recomp.Census.State.{Element, Core, Feed}
use hybrid_heaven_recomp.Census.Geometry.{projection_is_ortho}

unfoldable pub same_bool : Bool → Bool → Bool
same_bool true b = b
same_bool false b = not b

-- The list and the index; the text is added where it is new.
unfoldable pub intern : List (List ℕ) → List ℕ → List (List ℕ) × ℕ
intern [] text = (text ∷ [], 0)
intern (t ∷ ts) text =
    let (ts', i) = intern ts text in if bytes_eq t text then (t ∷ ts, 0) else (t ∷ ts', suc i)

module _ {F : Type 0} (fl : Floats F) where
  -- `std::min` and `std::max`
  unfoldable pub min_of : F → F → F
  min_of a b = if fl.lt b a then b else a

  unfoldable pub max_of : F → F → F
  max_of a b = if fl.lt a b then b else a

  unfoldable pub is_same : Element F → Element F → Bool
  is_same new old = bytes_eq old.identity new.identity && same_bool old.rect new.rect

  unfoldable pub grow : Element F → Element F → Element F
  grow new old = record old {
    x0 = min_of old.x0 new.x0;
    x1 = max_of old.x1 new.x1;
    y0 = min_of old.y0 new.y0;
    y1 = max_of old.y1 new.y1;
  }

  -- The loop over the elements: `room` is whether one more may be added at the end.
  unfoldable pub note_in : Bool → Element F → List (Element F) → List (Element F)
  note_in room new [] = if room then new ∷ [] else []
  note_in room new (e ∷ es) =
      let rest = note_in room new es in if is_same new e then grow new e ∷ es else e ∷ rest

  unfoldable pub note : Element F → Feed F → Feed F
  note new s = record s { elements = note_in (ltb (length s.elements) 256) new s.elements }

  unfoldable pub note_triangle : Core → ℕ → ℕ → ℕ → Feed F → Feed F
  note_triangle core a b c s =
      let v0 = s.verts (a % 64) in
      let v1 = s.verts (b % 64) in
      let v2 = s.verts (c % 64) in
      let inside = not (core.list_id == 0) in
      let none_second : List ℕ = [] in
      if not s.hud || not (projection_is_ortho fl s) || not v0.ok || not v1.ok || not v2.ok
      then s
      else note
          record {
            identity = if inside then s.list_ident else s.texture_ident;
            second = if inside then s.texture_ident else none_second;
            x0 = min_of (min_of v0.x v1.x) v2.x;
            x1 = max_of (max_of v0.x v1.x) v2.x;
            y0 = min_of (min_of v0.y v1.y) v2.y;
            y1 = max_of (max_of v0.y v1.y) v2.y;
            rect = false;
          }
          s
