-- ===== src/Pak/Store.antt =====
-- src/controller_pak.cpp: the four paks in memory, loaded on first touch and written back by
-- `flush`. The mutex is held through each operation, so the operations are steps of one state.
-- The proofs are in the modules below.
pub mod Invariant
pub mod Blocks
pub mod Created
pub mod Sync
pub mod Lost
pub mod Reboot
use hybrid_heaven_recomp.Prelude.{
  ℕ, zero, suc, ◌+◌, ◌-◌, ◌*◌, ◌%◌, Bool, true, false, not, ◌&&◌, ◌||◌, Option, none, some, List,
  [], ◌∷◌, length, take, replicate, slice, memcpy, bytes_eq, ◌==◌, if◌then◌else◌, update, ℤ,
  in_range, index,
}
use hybrid_heaven_recomp.Pak.Format.{pak_size, block_size, block_count, format_empty}
use hybrid_heaven_recomp.Pak.Disk.{FilePath, Disk, write_file}

-- The file's globals, and the disk behind them. The arrays are functions of the port, 0 to 3.
pub record Store : Type 0 where
  pub dir : List ℕ
  pub pak : ℕ → List ℕ
  pub loaded : ℕ → Bool
  pub dirty : ℕ → Bool
  pub disk : Disk

-- The globals as the process starts, over the disk that it finds.
unfoldable pub initial : Disk → Store
initial disk = record {
  dir = [];
  pak = λ p. [];
  loaded = λ p. false;
  dirty = λ p. false;
  disk = disk;
}

abbrev pub pak_path : List ℕ → ℕ → FilePath
pak_path dir port = record { directory = dir; number = port + 1 }

-- `g_dir.empty()`
abbrev pub is_empty : List ℕ → Bool
is_empty [] = true
is_empty (c ∷ cs) = false

-- The buffer after `in.read`, and whether a whole pak was read: a short file fills its beginning.
unfoldable pub read_image : List ℕ → List ℕ × Bool
unfolding memcpy
read_image file =
    let bytes = take pak_size file in
    (memcpy (replicate pak_size 0) 0 bytes, length bytes == pak_size)

unfoldable pub whole_image : List ℕ → Option (List ℕ)
whole_image file = let (bytes, whole) = read_image file in if whole then some bytes else none

-- What `ensure_loaded` finds on disk for `port`, if it is a whole pak.
unfoldable pub disk_image : List ℕ → Disk → ℕ → Option (List ℕ)
disk_image dir disk port = if is_empty dir then none else elim (disk.content (pak_path dir port)) [
  | none ↦ none
  | some file ↦ if disk.readable (pak_path dir port) then whole_image file else none
]

-- Where no whole pak is on disk, an empty one is made and written out, if there is a directory.
unfoldable pub ensure_loaded : Store → ℕ → Store
ensure_loaded s port = if s.loaded port then s else elim (disk_image s.dir s.disk port) [
  | some image ↦ record s {
    pak = update s.pak port image;
    loaded = update s.loaded port true;
    dirty = update s.dirty port false;
  }
  | none ↦ record s {
    pak = update s.pak port format_empty;
    loaded = update s.loaded port true;
    dirty = update s.dirty port false;
    disk = if is_empty s.dir then s.disk else write_file s.disk (pak_path s.dir port) format_empty;
  }
]

unfoldable pub set_storage_directory : Store → List ℕ → Store
set_storage_directory s dir = record s { dir = dir }

unfoldable pub present : ℤ → Bool
present (ℤ.pos port) = port == 0
present (ℤ.negsuc n) = false

abbrev pub valid_block : ℤ → ℤ → Bool
valid_block port block = in_range port 4 && in_range block block_count

-- `none` is the result `false`, with nothing written to `out`.
unfoldable pub read_block : Store → ℤ → ℤ → Store × Option (List ℕ)
unfolding slice
read_block s port block =
    if valid_block port block
    then (let s' = ensure_loaded s (index port) in
        (s', some (slice (index block * block_size) block_size (s'.pak (index port)))))
    else (s, none)

unfoldable pub write_block : Store → ℤ → ℤ → List ℕ → Store × Bool
unfolding slice memcpy
write_block s port block bytes =
    if valid_block port block
    then (let s' = ensure_loaded s (index port) in
        let old = s'.pak (index port) in
        let off = index block * block_size in
        if bytes_eq (slice off block_size old) bytes then (s', true) else (
          record s' {
            pak = update s'.pak (index port) (memcpy old off bytes);
            dirty = update s'.dirty (index port) true;
          },
          true,
        ))
    else (s, false)

-- One round of the loop of `flush`. The result of `out.write` is not looked at.
unfoldable pub flush_port : Store → ℕ → Store
flush_port s port =
    if not (s.loaded port) || not (s.dirty port)
    then s
    else if s.disk.writable (pak_path s.dir port)
    then record s {
      dirty = update s.dirty port false;
      disk = write_file s.disk (pak_path s.dir port) (s.pak port);
    }
    else s

-- The rounds left, and the port.
unfoldable pub flush_from : Store → ℕ → ℕ → Store
flush_from s zero port = s
flush_from s (suc n) port = flush_from (flush_port s port) n (port + 1)

unfoldable pub flush : Store → Store
flush s = if is_empty s.dir then s else flush_from s 4 0
