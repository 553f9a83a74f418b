-- ===== src/Pak/Store/Reboot.antt =====
-- What was written is there after a flush and a restart of the process.

use hybrid_heaven_recomp.Prelude.{
  ℕ, ◌*◌, ◌<◌, ◌≡◌, ap, ◌∙◌, true, false, List, [], ◌∷◌, arith, slice, ℤ,
}
use hybrid_heaven_recomp.Pak.Format.{block_size}
use hybrid_heaven_recomp.Pak.Disk.{Disk}
use hybrid_heaven_recomp.Pak.Store.{
  Store, initial, is_empty, set_storage_directory, read_block, write_block, flush,
}
use hybrid_heaven_recomp.Pak.Store.Invariant.{image}
use hybrid_heaven_recomp.Pak.Store.Blocks.{block, image-flush}
use hybrid_heaven_recomp.Pak.Store.Sync.{
  IsHealthy, IsSynced, is_clean, read_block-IsSynced, write_block-IsSynced, flush-IsSynced,
  flush-clean,
}

-- The process starts again, over the disk and with the directory that it had.
pub restart : Store → Store
restart s = set_storage_directory (initial s.disk) s.dir

pub image-restart :
    (s : Store) (q : ℕ) → IsSynced s → is_clean s q ≡ true → image (restart s) q ≡ image s q
unfolding restart set_storage_directory initial image
image-restart s q v h = ground (arith, v.clean q)

-- The calls that the rest of the program makes.
pub data Op : Type 0 where
  read : ℤ → ℤ → Op
  write : ℤ → ℤ → List ℕ → Op
  save : Op

unfoldable pub run : Store → List Op → Store
run s [] = s
run s (read port b ∷ ops) = run (read_block s port b).0 ops
run s (write port b bytes ∷ ops) = run (write_block s port b bytes).0 ops
run s (save ∷ ops) = run (flush s) ops

pub run-IsSynced : (s : Store) (ops : List Op) → IsSynced s → IsSynced (run s ops)
unfolding run
run-IsSynced s [] v = v
run-IsSynced s (read port b ∷ ops) v =
    run-IsSynced (read_block s port b).0 ops (read_block-IsSynced s port b v)
run-IsSynced s (write port b bytes ∷ ops) v =
    run-IsSynced (write_block s port b bytes).0 ops (write_block-IsSynced s port b bytes v)
run-IsSynced s (save ∷ ops) v = run-IsSynced (flush s) ops (flush-IsSynced s v)

pub boot-IsSynced :
    (d : Disk) (dir : List ℕ)
    → is_empty dir ≡ false
    → IsHealthy d
    → IsSynced (set_storage_directory (initial d) dir)
unfolding set_storage_directory initial
boot-IsSynced d dir n h = record {
  named = n;
  healthy = h;
  valid = record { size = λ p l. ground arith };
  clean = λ p l c. ground arith;
}

-- On a disk where every pak file can be read and written in full, and with a storage directory set
-- first: after any reads, writes and flushes, a flush and a restart of the process leave every block
-- of every port as it was.
pub block-restart :
    (d : Disk) (dir : List ℕ) (ops : List Op) (port b : ℕ)
    → is_empty dir ≡ false
    → IsHealthy d
    → port < 4
    → let s = run (set_storage_directory (initial d) dir) ops in
      block (restart (flush s)) port b ≡ block s port b
unfolding block
block-restart d dir ops port b n h p =
    let s = run (set_storage_directory (initial d) dir) ops in
    let v = run-IsSynced (set_storage_directory (initial d) dir) ops (boot-IsSynced d dir n h) in
    ap (slice (b * block_size) block_size) (
      image-restart (flush s) port (flush-IsSynced s v) (flush-clean s port v p)
      ∙ image-flush s port)
