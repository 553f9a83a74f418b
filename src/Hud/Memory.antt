-- ===== src/Hud/Memory.antt =====
-- RDRAM as the runtime holds it, 32-bit words in the host's order, by the byte address of the word.
use hybrid_heaven_recomp.Prelude.{ℕ, ◌+◌, ◌*◌, ◌/◌, ◌%◌, List, [], ◌∷◌, update}

abbrev pub Rdram : Type 0
Rdram = ℕ → ℕ

-- The mask 0x7FFFFC, as a remainder and a multiple.
unfoldable pub read_word : Rdram → ℕ → ℕ
read_word rdram phys = rdram (phys % 0x80_0000 / 4 * 4)

-- Commands of two words each, stored from an address on.
unfoldable pub write_commands : Rdram → ℕ → List (ℕ × ℕ) → Rdram
write_commands rdram at [] = rdram
write_commands rdram at ((w0, w1) ∷ cs) =
    write_commands (update (update rdram at w0) (at + 4) w1) (at + 8) cs
