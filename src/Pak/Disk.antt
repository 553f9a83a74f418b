-- ===== src/Pak/Disk.antt =====
-- The files that src/controller_pak.cpp reads and writes through the standard library.
use hybrid_heaven_recomp.Prelude.{
  ℕ, ◌≡◌, ◌≢◌, Bool, true, false, ◌&&◌, Option, some, List, arith, take, bytes_eq, bytes_eq_refl,
  ◌==◌, if◌then◌else◌,
}

-- `pak_path`: the directory, and the number in "controller_pak_<number>.pak".
pub record FilePath : Type 0 where
  pub directory : List ℕ
  pub number : ℕ

unfoldable pub path_eq : FilePath → FilePath → Bool
path_eq p q = bytes_eq p.directory q.directory && p.number == q.number

pub path_eq_refl : (p : FilePath) → path_eq p p ≡ true
unfolding path_eq
path_eq_refl p = ground (arith, bytes_eq_refl p.directory)

pub path_eq_ne : (p q : FilePath) → p.number ≢ q.number → path_eq p q ≡ false
unfolding path_eq
path_eq_ne p q h = ground arith

-- A file opens for reading if it is there and `readable`, and for writing if `writable`; of what is
-- written to it, `room` bytes find a place.
pub record Disk : Type 0 where
  pub content : FilePath → Option (List ℕ)
  pub readable : FilePath → Bool
  pub writable : FilePath → Bool
  pub room : FilePath → ℕ

-- `std::ofstream` with `trunc`, and one `write`.
unfoldable pub write_file : Disk → FilePath → List ℕ → Disk
write_file d path bytes =
    if d.writable path
    then record d {
      content = λ p. if path_eq path p then some (take (d.room path) bytes) else d.content p;
    }
    else d
