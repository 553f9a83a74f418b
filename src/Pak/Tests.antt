-- ===== src/Pak/Tests.antt =====
-- Runs of the Controller Pak's code, and its theorems at concrete inputs.
use hybrid_heaven_recomp.Prelude.{
  bytes_eq, ℕ, ◌≤◌, ◌≡◌, ◌≢◌, refl, Bool, true, false, ◌&&◌, ◌==◌, none, some, List, [], ◌∷◌, arith,
  replicate, slice, if◌then◌else◌, pos, length-replicate,
}
use hybrid_heaven_recomp.Pak.Format.{pak_size, seal_id, blank_id, format_empty}
use hybrid_heaven_recomp.Pak.Format.Layout.{IsFormatted}
use hybrid_heaven_recomp.Pak.Disk.{Disk, write_file, path_eq}
use hybrid_heaven_recomp.Pak.Store.{
  Store, initial, disk_image, flush_from, flush_port, pak_path, is_empty, ensure_loaded,
  set_storage_directory, read_block, write_block, flush,
}
use hybrid_heaven_recomp.Pak.Store.Invariant.{image, initial-IsValid}
use hybrid_heaven_recomp.Pak.Store.Blocks.{block, read_block-eq-block, block-write_block}
use hybrid_heaven_recomp.Pak.Store.Created.{ensure_loaded-IsFormatted}
use hybrid_heaven_recomp.Pak.Store.Lost.{flush_port_lost}
use hybrid_heaven_recomp.Pak.Store.Sync.{IsHealthy}
use hybrid_heaven_recomp.Pak.Store.Reboot.{restart, Op, read, write, save, run, block-restart}

-- A disk with no file and room for all.
abbrev blank_disk : Disk
blank_disk = record {
  content = λ p. none;
  readable = λ p. true;
  writable = λ p. true;
  room = λ p. pak_size;
}

abbrev app_dir : List ℕ
app_dir = b'h' ∷ b'h' ∷ []

abbrev fresh : Store
fresh = initial blank_disk

abbrev letters : List ℕ
letters = replicate 32 b'a'

seal_blank : slice 0x18 8 (seal_id blank_id) ≡ 0 ∷ 1 ∷ 1 ∷ 0 ∷ 1 ∷ 1 ∷ 0xfe ∷ 0xf1 ∷ []
unfolding seal_id
seal_blank = refl

read_block-eq-block_example :
    ((read_block fresh (pos 0) (pos 3)).1 ≡ some (block fresh 0 3))
    × ((q : ℕ) → image (read_block fresh (pos 0) (pos 3)).0 q ≡ image fresh q)
    × (true ≡ false → (read_block fresh (pos 0) (pos 3)).0 ≡ fresh)
read_block-eq-block_example = read_block-eq-block fresh (pos 0) (pos 3)

block-write_block_example :
    ((write_block fresh (pos 1) (pos 5) letters).1 ≡ true)
    × (◌≡◌ {A = Bool} true true
        → (q c : ℕ)
        → block (write_block fresh (pos 1) (pos 5) letters).0 q c
          ≡ (if 1 == q && 5 == c then letters else block fresh q c))
    × (true ≡ false → (write_block fresh (pos 1) (pos 5) letters).0 ≡ fresh)
block-write_block_example =
    block-write_block fresh (pos 1) (pos 5) letters (initial-IsValid blank_disk) refl

ensure_loaded-IsFormatted_example :
    let s = set_storage_directory fresh app_dir in
    IsFormatted ((ensure_loaded s 0).pak 0)
    × (is_empty s.dir ≡ false
        → s.disk.writable (pak_path s.dir 0) ≡ true
        → pak_size ≤ s.disk.room (pak_path s.dir 0)
        → (ensure_loaded s 0).disk.content (pak_path s.dir 0) ≡ some ((ensure_loaded s 0).pak 0))
unfolding set_storage_directory initial
ensure_loaded-IsFormatted_example =
    ensure_loaded-IsFormatted (set_storage_directory fresh app_dir) 0 refl (λ file h. ground arith)

blank_disk-IsHealthy : IsHealthy blank_disk
blank_disk-IsHealthy = record {
  readable = λ p. refl;
  writable = λ p. refl;
  room = λ p. omega arith;
}

abbrev session : List Op
session =
    read (pos 0) (pos 1) ∷ write (pos 0) (pos 5) letters ∷ save ∷ write (pos 2) (pos 7) letters ∷ []

block-restart_example :
    let s = run (set_storage_directory fresh app_dir) session in
    block (restart (flush s)) 2 7 ≡ block s 2 7
block-restart_example =
    block-restart blank_disk app_dir session 2 7 refl blank_disk-IsHealthy (omega arith)

-- A disk without room.
abbrev full_disk : Disk
full_disk = record blank_disk { room = λ p. 0 }

-- A pak of zeroes that waits to be written, over a full disk.
abbrev waiting : Store
waiting = record {
  dir = app_dir;
  pak = λ p. replicate pak_size 0;
  loaded = λ p. true;
  dirty = λ p. true;
  disk = full_disk;
}

flush_port_lost_example :
    ((flush_port waiting 0).dirty 0 ≡ false)
    × ((flush_port waiting 0).disk.content (pak_path app_dir 0) ≢ some (replicate pak_size 0))
flush_port_lost_example =
    flush_port_lost waiting 0 (record { size = λ p l. length-replicate {A = ℕ} pak_size 0 }) refl
      refl refl (omega arith)

-- `flush` on that disk clears the dirty mark, and the file is empty.
full_disk_loses :
    let s =
      run
        (set_storage_directory (initial full_disk) app_dir)
        (write (pos 0) (pos 5) letters ∷ save ∷ []) in
    (s.dirty 0 ≡ false) × ((s.disk.content (pak_path app_dir 0)) ≡ some [])
unfolding run write_block ensure_loaded disk_image flush flush_from flush_port write_file path_eq
    set_storage_directory initial bytes_eq format_empty
full_disk_loses = (refl, refl)
