-- ===== src/Hud/Identity.antt =====
-- include/hh/hudid.h: the names of the HUD's elements, as the bytes that `snprintf` writes.
pub mod Distinct
use hybrid_heaven_recomp.Prelude.{
  ℕ, zero, suc, ◌+◌, ◌-◌, ◌*◌, ◌/◌, ◌%◌, ◌^◌, bit_xor, ℤ, pos, negsuc, Bool, true, false, ◌&&◌,
  List, [], ◌∷◌, ◌++◌, ◌==◌, ltb, leb, if◌then◌else◌, take,
}
use hybrid_heaven_recomp.Hud.Memory.{Rdram, read_word}

abbrev pub fnv_byte : ℕ → ℕ → ℕ
fnv_byte h byte = bit_xor h byte * 16777619 % 2 ^ 32

unfoldable pub fnv : ℕ → ℕ → ℕ
fnv h word =
    fnv_byte
      (fnv_byte (fnv_byte (fnv_byte h (word % 256)) (word / 2 ^ 8 % 256)) (word / 2 ^ 16 % 256))
      (word / 2 ^ 24 % 256)

-- The lower case digits of `%x`.
unfoldable pub hex_digit : ℕ → ℕ
hex_digit n = if ltb n 10 then b'0' + n else b'a' + (n - 10)

-- The last digits of a number, as many as the first argument says: `%08x` of a word for 8.
unfoldable pub hex : ℕ → ℕ → List ℕ
unfolding hex_digit
hex zero n = []
hex (suc k) n = hex_digit (n / 16 ^ k % 16) ∷ hex k n

-- `%d`, with the most digits that are left to write; an `int` has ten at most.
unfoldable pub decimal_from : ℕ → ℕ → List ℕ → List ℕ
decimal_from zero n digits = digits
decimal_from (suc k) n digits =
    let digits' : List ℕ = (b'0' + n % 10) ∷ digits in
    let rest = decimal_from k (n / 10) digits' in if n / 10 == 0 then digits' else rest

unfoldable pub decimal : ℤ → List ℕ
unfolding decimal_from
decimal (pos n) = decimal_from 10 n []
decimal (negsuc n) = b'-' ∷ decimal_from 10 (n + 1) []

abbrev pub fnv_basis : ℕ
fnv_basis = 2166136261

-- The hash of the words from a physical address on, with the rounds left.
unfoldable pub texture_hash : Rdram → ℕ → ℕ → ℕ → ℕ
unfolding fnv
texture_hash rdram zero h phys = h
texture_hash rdram (suc rounds) h phys =
    texture_hash rdram rounds (fnv h (read_word rdram phys)) (phys + 4)

unfoldable pub texture : Rdram → ℕ → ℕ → List ℕ
texture rdram address phys =
    (b't' ∷ b'e' ∷ b'x' ∷ b':' ∷ b'0' ∷ b'x' ∷ [])
    ++ hex 8 address
    ++ b'#' ∷ hex 8 (texture_hash rdram 16 fnv_basis phys)

-- The hash of a list's first commands, to its G_ENDDL.
unfoldable pub list_hash : Rdram → ℕ → ℕ → ℕ → ℕ
unfolding fnv
list_hash rdram zero h phys = h
list_hash rdram (suc rounds) h phys =
    let w0 = read_word rdram phys in
    let h' = fnv (fnv h w0) (read_word rdram (phys + 4)) in
    let rest = list_hash rdram rounds h' (phys + 8) in if w0 / 2 ^ 24 == 0xDF then h' else rest

unfoldable pub list : Rdram → ℕ → ℕ → List ℕ
list rdram address phys =
    (b'd' ∷ b'l' ∷ b':' ∷ b'0' ∷ b'x' ∷ [])
    ++ hex 8 address
    ++ b'#' ∷ hex 8 (list_hash rdram 16 fnv_basis phys)

-- `a <= n` of an `int`.
unfoldable pub at_most : ℤ → ℕ → Bool
at_most (pos a) n = leb a n
at_most (negsuc a) n = true

unfoldable pub at_least : ℤ → ℕ → Bool
at_least (pos a) n = leb n a
at_least (negsuc a) n = false

-- The full frame has no name. The buffer holds 47 characters.
unfoldable pub fill : ℕ → ℤ → ℤ → ℤ → ℤ → List ℕ
unfolding at_most at_least
fill colour ulx uly lrx lry =
    if at_most ulx 0 && at_most uly 0 && at_least lrx 319 && at_least lry 239
    then []
    else take 47 (
        (b'f' ∷ b'i' ∷ b'l' ∷ b'l' ∷ b':' ∷ b'0' ∷ b'x' ∷ [])
        ++ hex 8 colour
        ++ b'@' ∷ decimal ulx
        ++ b',' ∷ decimal uly
        ++ b',' ∷ decimal lrx
        ++ b',' ∷ decimal lry)
