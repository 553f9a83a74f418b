-- ===== src/Census/Geometry.antt =====
-- Matrices and vertices, over the floats.
use hybrid_heaven_recomp.Prelude.{
  Floats, ℕ, ◌+◌, ◌-◌, ◌*◌, ◌/◌, ◌%◌, ◌^◌, ℤ, pos, negsuc, Bool, true, false, ◌&&◌, not, ◌==◌, ltb,
  if◌then◌else◌,
}
use hybrid_heaven_recomp.Hud.Memory.{Rdram, read_word}
use hybrid_heaven_recomp.Census.State.{M4, Screen, Feed}

-- `static_cast<int16_t>`
unfoldable pub int16 : ℕ → ℤ
int16 n = if ltb (n % 2 ^ 16) 0x8000 then pos (n % 2 ^ 16) else negsuc (0xFFFF - n % 2 ^ 16)

-- `static_cast<int32_t>`
unfoldable pub int32 : ℕ → ℤ
int32 n = if ltb n (2 ^ 31) then pos n else negsuc (2 ^ 32 - 1 - n)

-- The half of a word that holds an element, by the element's parity.
unfoldable pub half_of : ℕ → ℕ → ℕ
half_of e w = if e % 2 == 0 then w / 2 ^ 16 % 2 ^ 16 else w % 2 ^ 16

-- The element in 16.16 fixed point, which the code then divides by 65536.
unfoldable pub fixed_element : Rdram → ℕ → ℕ → ℤ
fixed_element rdram phys e =
    let iw = read_word rdram (phys + 4 * (e / 2)) in
    let fw = read_word rdram (phys + 32 + 4 * (e / 2)) in
    int32 (half_of e iw * 2 ^ 16 + half_of e fw)

module _ {F : Type 0} (fl : Floats F) where
  unfoldable pub nat : ℕ → F
  nat n = fl.int (pos n)

  unfoldable pub mtx_element : Rdram → ℕ → ℕ → F
  mtx_element rdram phys e = fl.div (fl.int (fixed_element rdram phys e)) (nat 65536)

  unfoldable pub read_matrix : Rdram → ℕ → M4 F
  read_matrix rdram phys i j = mtx_element rdram phys (4 * i + j)

  -- From zero on, in the order of the loop.
  unfoldable pub sum4 : (ℕ → F) → F
  sum4 f = fl.add (fl.add (fl.add (fl.add (nat 0) (f 0)) (f 1)) (f 2)) (f 3)

  unfoldable pub multiply : M4 F → M4 F → M4 F
  multiply a b i j = sum4 (λ k. fl.mul (a i k) (b k j))

  unfoldable pub projection_is_ortho : Feed F → Bool
  projection_is_ortho s =
      let zero_at : ℕ → Bool = λ i. fl.eq (s.projection i 3) (nat 0) in
      zero_at 0 && zero_at 1 && zero_at 2 && not (zero_at 3)

  -- A vertex as four coordinates.
  unfoldable pub vertex : ℤ → ℤ → ℤ → ℕ → F
  vertex x y z k =
      if k == 0 then fl.int x else if k == 1 then fl.int y else if k == 2 then fl.int z else nat 1

  unfoldable pub times : (ℕ → F) → M4 F → ℕ → F
  times v m j = sum4 (λ k. fl.mul (v k) (m k j))

  -- `to_320`
  unfoldable pub scale_320 : Bool → F
  scale_320 hi_res = if hi_res then fl.div (nat 1) (nat 2) else nat 1

  unfoldable pub place : Bool → Feed F → ℤ → ℤ → ℤ → Screen F
  place hi_res s x y z =
      let c = times (times (vertex x y z) (s.modelview s.mv_depth)) s.projection in
      let nx = fl.div (c 0) (c 3) in
      let ny = fl.div (c 1) (c 3) in
      let to_320 = scale_320 hi_res in
      if fl.le (c 3) (nat 0) then record { x = nat 0; y = nat 0; ok = false } else record {
        x = fl.float (fl.mul (fl.add (fl.mul nx s.vp_scale_x) s.vp_trans_x) to_320);
        y = fl.float (fl.mul (fl.add (fl.mul (fl.neg ny) s.vp_scale_y) s.vp_trans_y) to_320);
        ok = true;
      }
