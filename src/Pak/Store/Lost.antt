-- ===== src/Pak/Store/Lost.antt =====
-- What `flush` does where the file opens and the write falls short.
use hybrid_heaven_recomp.Prelude.{ℕ, ◌<◌, ◌≡◌, ◌≢◌, true, false, some, arith, length-take}
use hybrid_heaven_recomp.Pak.Format.{pak_size}
use hybrid_heaven_recomp.Pak.Disk.{FilePath, write_file, path_eq_refl}
use hybrid_heaven_recomp.Pak.Store.{Store, pak_path, flush_port}
use hybrid_heaven_recomp.Pak.Store.Invariant.{IsValid}

-- A dirty pak whose file opens for writing but has no room for 32 KiB is marked clean by the flush,
-- though the file does not hold the pak: no later flush will write it.
pub flush_port_lost :
    (s : Store) (p : ℕ)
    → IsValid s
    → s.loaded p ≡ true
    → s.dirty p ≡ true
    → s.disk.writable (pak_path s.dir p) ≡ true
    → s.disk.room (pak_path s.dir p) < pak_size
    → ((flush_port s p).dirty p ≡ false)
      × ((flush_port s p).disk.content (pak_path s.dir p) ≢ some (s.pak p))
unfolding flush_port write_file
flush_port_lost s p v l d w r =
    let path : FilePath = pak_path s.dir p in
    ground (arith, path_eq_refl path, v.size p l, length-take (s.disk.room path) (s.pak p))
