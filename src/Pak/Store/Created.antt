-- ===== src/Pak/Store/Created.antt =====
-- A port with no pak on disk gets an empty formatted one.
use hybrid_heaven_recomp.Prelude.{
  ℕ, ◌≤◌, ◌<◌, ◌≡◌, inl, inr, true, false, none, some, List, arith, length, take_all, length-take,
  Option-cases, ==_refl,
}
use hybrid_heaven_recomp.Pak.Format.{pak_size, format_empty}
use hybrid_heaven_recomp.Pak.Format.Layout.{
  IsFormatted, format_empty-IsFormatted, length-format_empty,
}
use hybrid_heaven_recomp.Pak.Disk.{Disk, write_file, path_eq_refl}
use hybrid_heaven_recomp.Pak.Store.{
  Store, pak_path, is_empty, read_image, whole_image, disk_image, ensure_loaded,
}

whole_image_short : (file : List ℕ) → length file < pak_size → whole_image file ≡ none
unfolding whole_image read_image
whole_image_short file h = ground (arith, length-take pak_size file)

disk_image_short :
    (dir : List ℕ) (d : Disk) (port : ℕ)
    → ((file : List ℕ) → d.content (pak_path dir port) ≡ some file → length file < pak_size)
    → disk_image dir d port ≡ none
unfolding disk_image
disk_image_short dir d port h = elim (Option-cases (d.content (pak_path dir port))) [
  | inl e ↦ ground arith
  | inr (file, e) ↦ ground (arith, whole_image_short file (h file e))
]

-- The first touch of a port whose file is missing or short of 32 KiB puts a formatted pak without
-- notes in memory, and, where there is a directory and the file takes 32 KiB, writes it there.
pub ensure_loaded-IsFormatted :
    (s : Store) (port : ℕ)
    → s.loaded port ≡ false
    → ((file : List ℕ) → s.disk.content (pak_path s.dir port) ≡ some file → length file < pak_size)
    → IsFormatted ((ensure_loaded s port).pak port)
      × (is_empty s.dir ≡ false
          → s.disk.writable (pak_path s.dir port) ≡ true
          → pak_size ≤ s.disk.room (pak_path s.dir port)
          → (ensure_loaded s port).disk.content (pak_path s.dir port)
            ≡ some ((ensure_loaded s port).pak port))
unfolding ensure_loaded write_file
ensure_loaded-IsFormatted s port l h =
    rw (l, disk_image_short s.dir s.disk port h, ==_refl port)
      (
        format_empty-IsFormatted,
        λ n w r. ground (
          arith,
          path_eq_refl (pak_path s.dir port),
          take_all (s.disk.room (pak_path s.dir port)) format_empty
              (omega (arith, length-format_empty)),
        ),
      )
