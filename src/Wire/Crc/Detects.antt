-- ===== src/Wire/Crc/Detects.antt =====
-- The CRC of a block tells it from every block that differs in one byte.
use hybrid_heaven_recomp.Prelude.{
  ℕ, zero, suc, ◌+◌, ◌*◌, ◌/◌, ◌%◌, ◌≤◌, ◌<◌, bit_xor, ◌≡◌, ◌≢◌, refl, true, ◌&&◌, Option, none,
  some, List, [], ◌∷◌, ◌++◌, ◌==◌, ltb, ltb→lt, sym, ap, ◌∙◌, Bool, passes, passes-entry, arith,
  ==_iff,
}
use hybrid_heaven_recomp.Wire.Crc.{crc_step, bit_in, crc_byte, crc_from, data_crc}

abbrev pub All {κ} : (ℕ → Type κ) → List ℕ → Type κ
All P [] = Unit
All P (x ∷ xs) = P x × All P xs

abbrev pub Bytes : List ℕ → Type 0
Bytes = All (λ b. b < 256)

Bytes-append : (xs ys : List ℕ) → Bytes xs → Bytes ys → Bytes (xs ++ ys)
Bytes-append [] ys hx hy = hy
Bytes-append (x ∷ xs) ys hx hy = (hx.0, Bytes-append xs ys hx.1 hy)

-- The CRC before a round, from the CRC after it and the bit that was shifted in: the polynomial is
-- odd, so the lowest bit shows whether it was added.
abbrev unstep : ℕ → ℕ → ℕ
unstep crc bit = let top = bit_xor (crc % 2) bit in bit_xor crc (top * 0x85) / 2 + top * 128

step_table :
    passes (λ c. passes (λ b. ltb (crc_step c b) 256 && unstep (crc_step c b) b == c) 2) 256 ≡ true
unfolding passes crc_step
step_table = refl

bit_table : passes (λ i. passes (λ b. ltb (bit_in (some b) i) 2) 256) 8 ≡ true
unfolding passes bit_in
bit_table = refl

-- Eight rounds add the byte to what they make of the CRC alone.
byte_table :
    passes (λ c. passes (λ b. bit_xor (crc_byte 8 c (some b)) (crc_byte 8 c none) == b) 256) 256
    ≡ true
unfolding passes crc_byte
byte_table = refl

-- A table in two numbers.
passes-entry₂ :
    (m n : ℕ) (p : ℕ → ℕ → Bool) (x y : ℕ)
    → passes (λ a. passes (p a) n) m ≡ true
    → x < m
    → y < n
    → p x y ≡ true
passes-entry₂ m n p x y t hx hy =
    passes-entry (p x) n (passes-entry (λ a. passes (p a) n) m t x hx) y hy

bit_in-lt : (b i : ℕ) → i < 8 → b < 256 → bit_in (some b) i < 2
bit_in-lt b i hi hb =
    ltb→lt _ _ (passes-entry₂ 8 256 (λ j c. ltb (bit_in (some c) j) 2) i b bit_table hi hb)

bit_in-none-lt : (i : ℕ) → bit_in none i < 2
unfolding bit_in
bit_in-none-lt i = omega arith

crc_step-unstep : (c b : ℕ) → c < 256 → b < 2 → (crc_step c b < 256) × (unstep (crc_step c b) b ≡ c)
crc_step-unstep c b hc hb =
    let t =
      passes-entry₂ 256 2 (λ x y. ltb (crc_step x y) 256 && unstep (crc_step x y) y == x) c b
        step_table hc hb in
    ground arith

crc_step-injective : (c d b : ℕ) → c < 256 → d < 256 → b < 2 → crc_step c b ≡ crc_step d b → c ≡ d
crc_step-injective c d b hc hd hb e =
    sym (crc_step-unstep c b hc hb).1 ∙ ap (λ o. unstep o b) e ∙ (crc_step-unstep d b hd hb).1

-- A byte, or nothing, of which every bit is 0 or 1.
abbrev HasBits : Option ℕ → Type 0
HasBits o = (i : ℕ) → i < 8 → bit_in o i < 2

crc_byte-lt : (n c : ℕ) (o : Option ℕ) → n ≤ 8 → HasBits o → c < 256 → crc_byte n c o < 256
unfolding crc_byte
crc_byte-lt zero c o hn bits hc = hc
crc_byte-lt (suc n) c o hn bits hc =
    crc_byte-lt n (crc_step c (bit_in o n)) o (omega arith) bits
      (crc_step-unstep c (bit_in o n) hc (bits n (omega arith))).0

crc_byte-injective :
    (n c d : ℕ) (o : Option ℕ)
    → n ≤ 8
    → HasBits o
    → c < 256
    → d < 256
    → crc_byte n c o ≡ crc_byte n d o
    → c ≡ d
unfolding crc_byte
crc_byte-injective zero c d o hn bits hc hd e = e
crc_byte-injective (suc n) c d o hn bits hc hd e =
    let b = bits n (omega arith) in
    crc_step-injective c d (bit_in o n) hc hd b (
      crc_byte-injective n (crc_step c (bit_in o n)) (crc_step d (bit_in o n)) o (omega arith) bits
        (crc_step-unstep c (bit_in o n) hc b).0 (crc_step-unstep d (bit_in o n) hd b).0 e)

byte-HasBits : (b : ℕ) → b < 256 → HasBits (some b)
byte-HasBits b h i hi = bit_in-lt b i hi h

crc_from-lt : (c : ℕ) (bs : List ℕ) → c < 256 → Bytes bs → crc_from c bs < 256
unfolding crc_from
crc_from-lt c [] hc h = crc_byte-lt 8 c none (omega arith) (λ i _. bit_in-none-lt i) hc
crc_from-lt c (b ∷ bs) hc h =
    crc_from-lt (crc_byte 8 c (some b)) bs
      (crc_byte-lt 8 c (some b) (omega arith) (byte-HasBits b h.0) hc) h.1

crc_from-injective :
    (c d : ℕ) (bs : List ℕ) → c < 256 → d < 256 → Bytes bs → crc_from c bs ≡ crc_from d bs → c ≡ d
unfolding crc_from
crc_from-injective c d [] hc hd h e =
    crc_byte-injective 8 c d none (omega arith) (λ i _. bit_in-none-lt i) hc hd e
crc_from-injective c d (b ∷ bs) hc hd h e =
    let bits = byte-HasBits b h.0 in
    crc_byte-injective 8 c d (some b) (omega arith) bits hc hd (
      crc_from-injective (crc_byte 8 c (some b)) (crc_byte 8 d (some b)) bs
        (crc_byte-lt 8 c (some b) (omega arith) bits hc)
        (crc_byte-lt 8 d (some b) (omega arith) bits hd) h.1 e)

crc_byte-byte :
    (c b : ℕ) → c < 256 → b < 256 → bit_xor (crc_byte 8 c (some b)) (crc_byte 8 c none) ≡ b
crc_byte-byte c b hc hb = (==_iff _ b).0 (
    passes-entry₂ 256 256 (λ x y. bit_xor (crc_byte 8 x (some y)) (crc_byte 8 x none) == y) c b
      byte_table hc hb)

crc_from_differ :
    (c : ℕ) (before : List ℕ) (b b' : ℕ) (after : List ℕ)
    → c < 256
    → Bytes before
    → b < 256
    → b' < 256
    → Bytes after
    → crc_from c (before ++ b ∷ after) ≡ crc_from c (before ++ b' ∷ after)
    → b ≡ b'
unfolding crc_from
crc_from_differ c [] b b' after hc hs hb hb' h e =
    let same =
      crc_from-injective (crc_byte 8 c (some b)) (crc_byte 8 c (some b')) after
        (crc_byte-lt 8 c (some b) (omega arith) (byte-HasBits b hb) hc)
        (crc_byte-lt 8 c (some b') (omega arith) (byte-HasBits b' hb') hc) h e in
    sym (crc_byte-byte c b hc hb)
    ∙ ap (λ x. bit_xor x (crc_byte 8 c none)) same
    ∙ crc_byte-byte c b' hc hb'
crc_from_differ c (x ∷ xs) b b' after hc hs hb hb' h e =
    crc_from_differ (crc_byte 8 c (some x)) xs b b' after
      (crc_byte-lt 8 c (some x) (omega arith) (byte-HasBits x hs.0) hc) hs.1 hb hb' h e

-- The CRC of bytes is a byte, and it differs for any two blocks of bytes, of whatever length, that
-- differ in exactly one byte.
pub data_crc_detects :
    (before : List ℕ) (b b' : ℕ) (after : List ℕ)
    → Bytes before
    → b < 256
    → b' < 256
    → Bytes after
    → b ≢ b'
    → (data_crc (before ++ b ∷ after) < 256)
      × (data_crc (before ++ b ∷ after) ≢ data_crc (before ++ b' ∷ after))
unfolding data_crc
data_crc_detects before b b' after hs hb hb' h ne = (
  crc_from-lt 0 (before ++ b ∷ after) (omega arith) (Bytes-append before (b ∷ after) hs (hb, h)),
  λ e. ne (crc_from_differ 0 before b b' after (omega arith) hs hb hb' h e),
)
