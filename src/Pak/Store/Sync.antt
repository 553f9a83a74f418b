-- ===== src/Pak/Store/Sync.antt =====
-- Which paks are on disk as they are in memory, and that a flush leaves none to write.
use native.Mathlib.Decide.{ℕ_discrete}
use hybrid_heaven_recomp.Prelude.{
  ℕ, zero, suc, ◌+◌, ◌*◌, ◌≤◌, ◌<◌, ◌≡◌, ◌≢◌, refl, ap, ◌∙◌, ◌⊎◌, inl, inr, Bool, true, false, not,
  ◌||◌, some, List, arith, length, replicate, length-replicate, take_all, slice, memcpy,
  length-memcpy, bytes_eq, overwrite_all, ==_refl, ne→==_false, update, Bool-cases, Option-cases, ℤ,
  index,
}
use hybrid_heaven_recomp.Pak.Format.{pak_size, block_size, format_empty}
use hybrid_heaven_recomp.Pak.Format.Layout.{length-format_empty}
use hybrid_heaven_recomp.Pak.Disk.{FilePath, Disk, write_file, path_eq_refl}
use hybrid_heaven_recomp.Pak.Store.{
  Store, pak_path, is_empty, read_image, whole_image, disk_image, valid_block, ensure_loaded,
  read_block, write_block, flush_port, flush_from, flush,
}
use hybrid_heaven_recomp.Pak.Store.Invariant.{
  IsValid, image, length-image, loaded-ensure_loaded, disk_image-write_ne,
}

-- A disk on which every pak file can be read and written in full.
pub record IsHealthy (d : Disk) : Type 0 where
  pub readable : (p : FilePath) → d.readable p ≡ true
  pub writable : (p : FilePath) → d.writable p ≡ true
  pub room : (p : FilePath) → pak_size ≤ d.room p

-- Every pak that is loaded and not dirty is on disk as it is in memory.
pub record IsSynced (s : Store) : Type 0 where
  pub named : is_empty s.dir ≡ false
  pub healthy : IsHealthy s.disk
  pub valid : IsValid s
  pub clean :
      (p : ℕ) → s.loaded p ≡ true → s.dirty p ≡ false → disk_image s.dir s.disk p ≡ some (s.pak p)

write_file-IsHealthy :
    (d : Disk) (p : FilePath) (m : List ℕ) → IsHealthy d → IsHealthy (write_file d p m)
unfolding write_file
write_file-IsHealthy d p m h =
    rw (h.writable p) (record { readable = h.readable; writable = h.writable; room = h.room })

whole_image_lem : (m : List ℕ) → length m ≡ pak_size → whole_image m ≡ some m
unfolding whole_image read_image memcpy
whole_image_lem m l =
    rw (take_all pak_size m (omega arith), l)
      (ap some (
        overwrite_all (replicate pak_size 0) m
          (omega (arith, length-replicate {A = ℕ} pak_size 0))))

-- A whole pak written to a healthy disk is what the next load finds.
disk_image-write_self :
    (dir : List ℕ) (d : Disk) (p : ℕ) (m : List ℕ)
    → is_empty dir ≡ false
    → IsHealthy d
    → length m ≡ pak_size
    → disk_image dir (write_file d (pak_path dir p) m) p ≡ some m
unfolding disk_image write_file
disk_image-write_self dir d p m n h l =
    let path : FilePath = pak_path dir p in
    ground (
      arith,
      h.writable path,
      path_eq_refl path,
      h.readable path,
      take_all (d.room path) m (omega (arith, h.room path)),
      whole_image_lem m l,
    )

-- The state once the pak in `port` is known to be on disk as `m`.
module _ (s : Store) (p : ℕ) (m : List ℕ) (d : Disk) where
  abbrev on_disk : Store
  on_disk = record s {
    pak = update s.pak p m;
    loaded = update s.loaded p true;
    dirty = update s.dirty p false;
    disk = d;
  }

  on_disk-IsSynced :
      IsSynced s
      → IsHealthy d
      → length m ≡ pak_size
      → disk_image s.dir d p ≡ some m
      → ((q : ℕ) → p ≢ q → disk_image s.dir d q ≡ disk_image s.dir s.disk q)
      → IsSynced on_disk
  on_disk-IsSynced v h l e same = record {
    named = v.named;
    healthy = h;
    valid = record { size = λ q r. ground (arith, v.valid.size q) };
    clean = λ q r c. elim (ℕ_discrete p q) [
      | yes eq ↦ rw (← eq) (rw ==_refl e)
      | no ne ↦ ground (arith, same q ne, v.clean q, ne→==_false p q ne)
    ];
  }

length-some_image :
    (s : Store) (p : ℕ) (m : List ℕ)
    → IsSynced s
    → s.loaded p ≡ false
    → disk_image s.dir s.disk p ≡ some m
    → length m ≡ pak_size
unfolding image
length-some_image s p m v l e =
    let len : length (image s p) ≡ pak_size = length-image s p v.valid in ground (arith, len)

pub ensure_loaded-IsSynced : (s : Store) (p : ℕ) → IsSynced s → IsSynced (ensure_loaded s p)
unfolding ensure_loaded
ensure_loaded-IsSynced s p v = elim (Bool-cases (s.loaded p)) [
  | inl l ↦ rw l v
  | inr l ↦ elim (Option-cases (disk_image s.dir s.disk p)) [
    | inl e ↦
        rw (l, e, v.named)
          (on_disk-IsSynced s p format_empty (write_file s.disk (pak_path s.dir p) format_empty) v
            (write_file-IsHealthy s.disk (pak_path s.dir p) format_empty v.healthy)
            length-format_empty
            (disk_image-write_self s.dir s.disk p format_empty v.named v.healthy
              length-format_empty)
            (λ q h. disk_image-write_ne s.dir s.disk p q format_empty h))
    | inr (m, e) ↦
        rw (l, e)
          (on_disk-IsSynced s p m s.disk v v.healthy (length-some_image s p m v l e) e
            (λ q h. refl))
  ]
]

pub read_block-IsSynced : (s : Store) (port b : ℤ) → IsSynced s → IsSynced (read_block s port b).0
unfolding read_block
read_block-IsSynced s port b v = elim (Bool-cases (valid_block port b)) [
  | inl h ↦ rw h (ensure_loaded-IsSynced s (index port) v)
  | inr h ↦ rw h v
]

-- A write makes its pak dirty, so that it need not be on disk.
dirty-IsSynced :
    (s : Store) (p : ℕ) (m : List ℕ)
    → IsSynced s
    → length m ≡ pak_size
    → IsSynced (record s { pak = update s.pak p m; dirty = update s.dirty p true })
dirty-IsSynced s p m v l = record {
  named = v.named;
  healthy = v.healthy;
  valid = record { size = λ q r. ground (arith, v.valid.size q) };
  clean = λ q r c. ground (arith, v.clean q);
}

pub write_block-IsSynced :
    (s : Store) (port b : ℤ) (bytes : List ℕ) → IsSynced s → IsSynced (write_block s port b bytes).0
unfolding write_block
write_block-IsSynced s port b bytes v =
    let p : ℕ = index port in
    let s' = ensure_loaded s p in
    let v' = ensure_loaded-IsSynced s p v in
    let off : ℕ = index b * block_size in
    elim (Bool-cases (valid_block port b)) [
      | inl h ↦ elim (Bool-cases (bytes_eq (slice off block_size (s'.pak p)) bytes)) [
        | inl e ↦ rw (h, e) v'
        | inr e ↦
            rw (h, e)
              (dirty-IsSynced s' p (memcpy (s'.pak p) off bytes) v'
                (length-memcpy (s'.pak p) off bytes ∙ v'.valid.size p (loaded-ensure_loaded s p)))
      ]
      | inr h ↦ rw h v
    ]

saved-IsSynced :
    (s : Store) (p : ℕ) (d : Disk)
    → IsSynced s
    → IsHealthy d
    → disk_image s.dir d p ≡ some (s.pak p)
    → ((q : ℕ) → p ≢ q → disk_image s.dir d q ≡ disk_image s.dir s.disk q)
    → IsSynced (record s { dirty = update s.dirty p false; disk = d })
saved-IsSynced s p d v h e same = record {
  named = v.named;
  healthy = h;
  valid = record { size = v.valid.size };
  clean = λ q r c. elim (ℕ_discrete p q) [
    | yes eq ↦ rw (← eq) e
    | no ne ↦ ground (arith, same q ne, v.clean q, ne→==_false p q ne)
  ];
}

flush_port-IsSynced : (s : Store) (p : ℕ) → IsSynced s → IsSynced (flush_port s p)
unfolding flush_port
flush_port-IsSynced s p v = elim (Bool-cases (s.loaded p)) [
  | inl l ↦ elim (Bool-cases (s.dirty p)) [
    | inl d ↦
        rw (l, d, v.healthy.writable (pak_path s.dir p))
          (saved-IsSynced s p (write_file s.disk (pak_path s.dir p) (s.pak p)) v
            (write_file-IsHealthy s.disk (pak_path s.dir p) (s.pak p) v.healthy)
            (disk_image-write_self s.dir s.disk p (s.pak p) v.named v.healthy (v.valid.size p l))
            (λ q h. disk_image-write_ne s.dir s.disk p q (s.pak p) h))
    | inr d ↦ rw (l, d) v
  ]
  | inr l ↦ rw l v
]

flush_from-IsSynced : (s : Store) (n p : ℕ) → IsSynced s → IsSynced (flush_from s n p)
unfolding flush_from
flush_from-IsSynced s zero p v = v
flush_from-IsSynced s (suc n) p v =
    flush_from-IsSynced (flush_port s p) n (p + 1) (flush_port-IsSynced s p v)

pub flush-IsSynced : (s : Store) → IsSynced s → IsSynced (flush s)
unfolding flush
flush-IsSynced s v = rw v.named (flush_from-IsSynced s 4 0 v)

-- A port is clean when nothing of it waits to be written.
abbrev pub is_clean : Store → ℕ → Bool
is_clean s p = not (s.loaded p) || not (s.dirty p)

flush_port-clean :
    (s : Store) (p q : ℕ)
    → IsSynced s
    → (is_clean (flush_port s p) p ≡ true)
      × (is_clean s q ≡ true → is_clean (flush_port s p) q ≡ true)
      × ((flush_port s p).dir ≡ s.dir)
unfolding flush_port
flush_port-clean s p q v = ground (arith, v.healthy.writable (pak_path s.dir p))

flush_from-clean :
    (s : Store) (n p q : ℕ)
    → IsSynced s
    → (is_clean s q ≡ true) ⊎ ((p ≤ q) × (q < p + n))
    → is_clean (flush_from s n p) q ≡ true
unfolding flush_from
flush_from-clean s zero p q v (inl c) = c
flush_from-clean s zero p q v (inr h) = absurd (omega arith)
flush_from-clean s (suc n) p q v (inl c) =
    flush_from-clean (flush_port s p) n (p + 1) q (flush_port-IsSynced s p v)
      (inl ((flush_port-clean s p q v).1 c))
flush_from-clean s (suc n) p q v (inr h) = elim (ℕ_discrete p q) [
  | yes e ↦
      flush_from-clean (flush_port s p) n (p + 1) q (flush_port-IsSynced s p v)
        (inl (rw (← e) (flush_port-clean s p q v).0))
  | no ne ↦
      flush_from-clean (flush_port s p) n (p + 1) q (flush_port-IsSynced s p v) (inr (omega arith))
]

pub flush-clean : (s : Store) (q : ℕ) → IsSynced s → q < 4 → is_clean (flush s) q ≡ true
unfolding flush
flush-clean s q v h = rw v.named (flush_from-clean s 4 0 q v (inr (omega arith)))
