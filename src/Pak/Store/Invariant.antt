-- ===== src/Pak/Store/Invariant.antt =====
-- What each port holds, whether it was loaded yet or not, and that a pak has 32 KiB.
use native.Mathlib.Decide.{ℕ_discrete}
use hybrid_heaven_recomp.Prelude.{
  ◌∙◌, sym, ℕ, zero, suc, ◌+◌, ◌*◌, ◌≡◌, ◌≢◌, ◌⊎◌, inl, inr, true, Option, none, some, List, arith,
  length, take, replicate, memcpy, length-memcpy, length-replicate, if◌then◌else◌, update,
  Option-cases, ℤ, index,
}
use hybrid_heaven_recomp.Pak.Format.{pak_size, block_size, format_empty}
use hybrid_heaven_recomp.Pak.Format.Layout.{length-format_empty}
use hybrid_heaven_recomp.Pak.Disk.{Disk, write_file, path_eq_ne}
use hybrid_heaven_recomp.Pak.Store.{
  Store, initial, pak_path, read_image, whole_image, disk_image, ensure_loaded, read_block,
  write_block, flush_port, flush_from, flush,
}

abbrev pub or_formatted : Option (List ℕ) → List ℕ
or_formatted none = format_empty
or_formatted (some image) = image

-- The bytes of the pak in `port`: those in memory, or those that the first touch will load.
unfoldable pub image : Store → ℕ → List ℕ
image s port = if s.loaded port then s.pak port else or_formatted (disk_image s.dir s.disk port)

-- Every pak in memory is 32 KiB.
pub record IsValid (s : Store) : Type 0 where
  pub size : (port : ℕ) → s.loaded port ≡ true → length (s.pak port) ≡ pak_size

-- A file of 32 KiB or more is read whole, and a shorter one is replaced by an empty pak.
length-read_image : (file : List ℕ) → length (read_image file).0 ≡ pak_size
unfolding read_image
length-read_image file =
    length-memcpy (replicate pak_size 0) 0 (take pak_size file)
    ∙ length-replicate {A = ℕ} pak_size 0

length-whole_image : (file : List ℕ) → length (or_formatted (whole_image file)) ≡ pak_size
unfolding whole_image
length-whole_image file = ground (arith, length-read_image file, length-format_empty)

length-disk_image :
    (dir : List ℕ) (d : Disk) (port : ℕ) → length (or_formatted (disk_image dir d port)) ≡ pak_size
unfolding disk_image
length-disk_image dir d port = elim (Option-cases (d.content (pak_path dir port))) [
  | inl e ↦ ground (arith, length-format_empty)
  | inr (file, e) ↦ ground (arith, length-format_empty, length-whole_image file)
]

pub disk_image-write_ne :
    (dir : List ℕ) (d : Disk) (p q : ℕ) (bytes : List ℕ)
    → p ≢ q
    → disk_image dir (write_file d (pak_path dir p) bytes) q ≡ disk_image dir d q
unfolding disk_image write_file
disk_image-write_ne dir d p q bytes h = ground (arith, path_eq_ne (pak_path dir p) (pak_path dir q))

module _ (s : Store) (p : ℕ) where
  pub loaded-ensure_loaded : (ensure_loaded s p).loaded p ≡ true
  unfolding ensure_loaded
  loaded-ensure_loaded = ground arith

  pub loaded-ensure_loaded_ne : (q : ℕ) → p ≢ q → (ensure_loaded s p).loaded q ≡ s.loaded q
  unfolding ensure_loaded
  loaded-ensure_loaded_ne q h = ground arith

  pub dir-ensure_loaded : (ensure_loaded s p).dir ≡ s.dir
  unfolding ensure_loaded
  dir-ensure_loaded = ground arith

  pub pak-ensure_loaded : (ensure_loaded s p).pak p ≡ image s p
  unfolding ensure_loaded image
  pak-ensure_loaded = ground arith

  pub pak-ensure_loaded_ne : (q : ℕ) → p ≢ q → (ensure_loaded s p).pak q ≡ s.pak q
  unfolding ensure_loaded
  pak-ensure_loaded_ne q h = ground arith

  disk-ensure_loaded :
      ((ensure_loaded s p).disk ≡ s.disk)
      ⊎ ((ensure_loaded s p).disk ≡ write_file s.disk (pak_path s.dir p) format_empty)
  unfolding ensure_loaded
  disk-ensure_loaded = ground arith

  disk_image-ensure_loaded :
      (q : ℕ) → p ≢ q → disk_image s.dir (ensure_loaded s p).disk q ≡ disk_image s.dir s.disk q
  disk_image-ensure_loaded q h = elim disk-ensure_loaded [
    | inl e ↦ rw e
    | inr e ↦ rw e (disk_image-write_ne s.dir s.disk p q format_empty h)
  ]

  -- Loading a pak changes what no port holds.
  pub image-ensure_loaded : (q : ℕ) → image (ensure_loaded s p) q ≡ image s q
  unfolding image
  image-ensure_loaded q = elim (ℕ_discrete p q) [
    | yes e ↦ rw (← e) (rw loaded-ensure_loaded pak-ensure_loaded)
    | no h ↦ rw (
      loaded-ensure_loaded_ne q h,
      pak-ensure_loaded_ne q h,
      dir-ensure_loaded,
      disk_image-ensure_loaded q h,
    )
  ]

pub length-image : (s : Store) (q : ℕ) → IsValid s → length (image s q) ≡ pak_size
unfolding image
length-image s q v = ground (arith, v.size q, length-disk_image s.dir s.disk q)

pub ensure_loaded-IsValid : (s : Store) (p : ℕ) → IsValid s → IsValid (ensure_loaded s p)
ensure_loaded-IsValid s p v = record {
  size = λ q l. elim (ℕ_discrete p q) [
    | yes e ↦ rw (← e) (rw pak-ensure_loaded (length-image s p v))
    | no h ↦
        rw (pak-ensure_loaded_ne s p q h) (v.size q (sym (loaded-ensure_loaded_ne s p q h) ∙ l))
  ];
}

pub initial-IsValid : (d : Disk) → IsValid (initial d)
unfolding initial
initial-IsValid d = record { size = λ p l. ground arith }

pub read_block-IsValid :
    (s : Store) (port block : ℤ) → IsValid s → IsValid (read_block s port block).0
unfolding read_block
read_block-IsValid s port block v = ground (arith, ensure_loaded-IsValid s (index port) v)

-- The write goes to one pak, whose size it keeps.
update-IsValid :
    (s : Store) (p off : ℕ) (bytes : List ℕ)
    → IsValid s
    → s.loaded p ≡ true
    → IsValid (record s {
      pak = update s.pak p (memcpy (s.pak p) off bytes);
      dirty = update s.dirty p true;
    })
update-IsValid s p off bytes v h = record {
  size = λ q l. ground (arith, v.size q, length-memcpy (s.pak p) off bytes);
}

pub write_block-IsValid :
    (s : Store) (port block : ℤ) (bytes : List ℕ)
    → IsValid s
    → IsValid (write_block s port block bytes).0
unfolding write_block
write_block-IsValid s port block bytes v = ground (
  arith,
  ensure_loaded-IsValid s (index port) v,
  update-IsValid (ensure_loaded s (index port)) (index port) (index block * block_size) bytes
      (ensure_loaded-IsValid s (index port) v) (loaded-ensure_loaded s (index port)),
)

pub flush_port-IsValid : (s : Store) (p : ℕ) → IsValid s → IsValid (flush_port s p)
unfolding flush_port
flush_port-IsValid s p v = record { size = λ q l. ground (arith, v.size q) }

flush_from-IsValid : (s : Store) (n p : ℕ) → IsValid s → IsValid (flush_from s n p)
unfolding flush_from
flush_from-IsValid s zero p v = v
flush_from-IsValid s (suc n) p v =
    flush_from-IsValid (flush_port s p) n (p + 1) (flush_port-IsValid s p v)

pub flush-IsValid : (s : Store) → IsValid s → IsValid (flush s)
unfolding flush
flush-IsValid s v = ground (arith, flush_from-IsValid s 4 0 v)
