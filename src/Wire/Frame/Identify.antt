-- ===== src/Wire/Frame/Identify.antt =====
-- The identify register and the motor: what the slot answers to the accessory probes.
use hybrid_heaven_recomp.Prelude.{
  ℕ, ◌<◌, ◌≡◌, ◌≢◌, refl, Bool, true, false, not, ◌&&◌, List, [], ◌∷◌, ◌++◌, get_or, replicate,
  arith, ◌==◌, ==_refl, ne→==_false, leb, if◌then◌else◌,
}
use hybrid_heaven_recomp.Pak.Store.{present}
use hybrid_heaven_recomp.Wire.Frame.{Si, exchange, exchange_detect, block_detect}

-- What a read of the identify register answers after a write of `bytes` to it: with a Rumble Pak in
-- the slot a value of 0x80 or more reads back as 0x80 in every byte, so that 0xFE does not read back
-- and 0x80 does; any other value, a bank number among them, reads back as it was written, and so
-- does every value where there is no Rumble Pak. Neither reaches the paks or the motor.
pub exchange-identify :
    {Mem : Type 0} (rumble_on : Bool) (s : Si Mem) (port : ℕ) (bytes any : List ℕ)
    → let s' = (exchange rumble_on true s port block_detect bytes).0 in
      ((exchange rumble_on false s' port block_detect any).1 ≡ (
        if rumble_on && port == 0 && leb 0x80 (get_or bytes 31 0)
        then replicate 32 0x80
        else bytes))
      × ((exchange rumble_on false s' port block_detect any).0 ≡ s')
      × (s'.paks ≡ s.paks)
      × (s'.rumble ≡ s.rumble)
      × ((q : ℕ) → port ≢ q → s'.detect_cell q ≡ s.detect_cell q)
unfolding exchange exchange_detect present
exchange-identify rumble_on s port bytes any =
    (rw (==_refl port) refl, refl, refl, refl, λ q h. ground (arith, ne→==_false port q h))

-- A write to a block above the identify register starts or stops the motor, as its first byte is not
-- or is zero, where the block is the motor's and port 1 holds a Rumble Pak, and does nothing
-- elsewhere; a read of it does nothing.
pub exchange-above :
    {Mem : Type 0} (rumble_on is_write : Bool) (s : Si Mem) (port block : ℕ) (bytes : List ℕ)
    → block_detect < block
    → exchange rumble_on is_write s port block bytes ≡ (
      if rumble_on && is_write && port == 0 && block == 0x600
          then record s { rumble = s.rumble ++ (0, not (get_or bytes 0 0 == 0)) ∷ [] }
          else s,
      bytes,
    )
unfolding exchange present
exchange-above rumble_on is_write s port block bytes h = ground arith
