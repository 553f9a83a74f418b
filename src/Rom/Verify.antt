-- ===== src/Rom/Verify.antt =====
-- `verify`: the pinned dump, and each way of not being it.
use hybrid_heaven_recomp.Prelude.{
  ℕ, ◌*◌, Bool, true, false, not, ◌||◌, List, [], ◌∷◌, ◌++◌, ◌==◌, bytes_eq, if◌then◌else◌,
}
use hybrid_heaven_recomp.Rom.Header.{RomFormat, unknown, z64, n64, v64, RomHeader}

abbrev pub target_cartridge_id : List ℕ
target_cartridge_id = b'H' ∷ b'V' ∷ []

abbrev pub target_region : ℕ
target_region = b'E'

abbrev pub target_revision : ℕ
target_revision = 0

abbrev pub target_size_bytes : ℕ
target_size_bytes = 16 * 1024 * 1024

abbrev pub target_crc1 : ℕ
target_crc1 = 0x1028_88BF

abbrev pub target_crc2 : ℕ
target_crc2 = 0x4348_88CA

pub data Problem : Type 0 where
  wrong_format : RomFormat → Problem
  wrong_size wrong_region wrong_revision : ℕ → Problem
  wrong_cartridge_id : List ℕ → Problem
  wrong_crc : ℕ → ℕ → Problem

abbrev pub report : Bool → Problem → List Problem
report true p = p ∷ []
report false p = []

-- `header.format != RomFormat::Z64`
unfoldable pub is_z64 : RomFormat → Bool
is_z64 unknown = false
is_z64 z64 = true
is_z64 n64 = false
is_z64 v64 = false

unfoldable pub field_problems : RomHeader → List Problem
field_problems h =
    report (not (h.size_bytes == target_size_bytes)) (wrong_size h.size_bytes)
    ++ (report (not (bytes_eq h.cartridge_id target_cartridge_id))
          (wrong_cartridge_id h.cartridge_id)
        ++ (report (not (h.region == target_region)) (wrong_region h.region)
            ++ (report (not (h.revision == target_revision)) (wrong_revision h.revision)
                ++ report (not (h.crc1 == target_crc1) || not (h.crc2 == target_crc2))
                    (wrong_crc h.crc1 h.crc2))))

-- The result and the problems. The CRCs of the target are not both zero, so they are compared.
unfoldable pub verify : RomHeader → Bool × List Problem
verify h =
    if is_z64 h.format
    then (elim (field_problems h) [ [] ↦ true | p ∷ ps ↦ false ], field_problems h)
    else (false, wrong_format h.format ∷ [])
