-- ===== src/Platform/Saves.antt =====
-- What the game saves reaches the disk without any further call: the main loop writes it.
use hybrid_heaven_recomp.Prelude.{
  ℕ, zero, suc, ◌+◌, ◌-◌, ◌*◌, ◌%◌, ◌^◌, ◌<◌, ◌≡◌, ◌⊎◌, inl, inr, refl, ap, sym, ◌∙◌, true, false,
  List, [], ◌∷◌, ◌==◌, arith, slice, length, Bool-cases, ltb,
}
use mathlib.Core.Path.{subst}
use hybrid_heaven_recomp.Pak.Format.{block_size}
use hybrid_heaven_recomp.Pak.Disk.{Disk}
use hybrid_heaven_recomp.Pak.Store.{Store, flush, is_empty, initial, set_storage_directory}
use hybrid_heaven_recomp.Pak.Store.Invariant.{image}
use hybrid_heaven_recomp.Pak.Store.Blocks.{block, image-flush}
use hybrid_heaven_recomp.Pak.Store.Sync.{IsHealthy, IsSynced, is_clean, flush-IsSynced, flush-clean}
use hybrid_heaven_recomp.Pak.Store.Reboot.{
  restart, image-restart, Op, run, run-IsSynced, boot-IsSynced,
}
use hybrid_heaven_recomp.Platform.Loop.{
  Host, Main, poll_input, flush_if, update_gfx, shutdown_platform,
}

-- The main loop's body once for each answer of the host.
unfoldable pub spin : List Host → Main → Main
spin [] s = s
spin (host ∷ hosts) s = spin hosts (update_gfx host s).0

unfoldable tick : ℕ → ℕ
tick n = (n + 1) % 2 ^ 64

-- What the body does to the paks alone.
unfoldable turn : ℕ → Store → Store
turn ticks s = flush_if (tick ticks % 60 == 0) s

ticks-update_gfx :
    (host : Host) (s : Main)
    → ((update_gfx host s).0.ticks ≡ tick s.ticks)
      × ((update_gfx host s).0.pak ≡ turn s.ticks s.pak)
unfolding update_gfx poll_input tick turn
ticks-update_gfx host s = (refl, refl)

module _ (s : Store) (q : ℕ) where
  turn-IsSynced : (ticks : ℕ) (t : Store) → IsSynced t → IsSynced (turn ticks t)
  unfolding turn flush_if
  turn-IsSynced ticks t v = elim (Bool-cases (tick ticks % 60 == 0)) [
    | inl e ↦ rw e (flush-IsSynced t v)
    | inr e ↦ rw e v
  ]

  Held : Store → Type 0
  Held t = IsSynced t × (image t q ≡ image s q)

  turn-Held : (ticks : ℕ) (t : Store) → Held t → Held (turn ticks t)
  unfolding turn flush_if Held
  turn-Held ticks t h = elim (Bool-cases (tick ticks % 60 == 0)) [
    | inl e ↦ rw e (flush-IsSynced t h.0, image-flush t q ∙ h.1)
    | inr e ↦ rw e h
  ]

  turn-clean :
      (ticks : ℕ) (t : Store)
      → q < 4
      → IsSynced t
      → (is_clean t q ≡ true) ⊎ (tick ticks % 60 ≡ 0)
      → is_clean (turn ticks t) q ≡ true
  unfolding turn flush_if
  turn-clean ticks t l v c = elim (Bool-cases (tick ticks % 60 == 0)) [
    | inl e ↦ rw e (flush-clean t q v l)
    | inr e ↦ elim c [ inl k ↦ rw e k | inr z ↦ absurd (ground (arith, e, z)) ]
  ]

  -- A flush comes within so many ticks.
  Due : ℕ → ℕ → Type 0
  Due n ticks = (i : ℕ) × (i < n) × ((ticks + i + 1) % 2 ^ 64 % 60 ≡ 0)

  Due-tick : (n ticks : ℕ) → Due (suc n) ticks → (tick ticks % 60 ≡ 0) ⊎ Due n (tick ticks)
  unfolding Due tick
  Due-tick n ticks (zero, l, z) = inl (omega (arith, z))
  Due-tick n ticks (suc i, l, z) = inr (i, omega arith, omega (arith, z))

  Due-60 : (ticks : ℕ) → ticks < 2 ^ 64 → Due 60 ticks
  unfolding Due
  Due-60 ticks l = elim (Bool-cases (ltb (ticks + 60) (2 ^ 64))) [
    | inl e ↦ (59 - ticks % 60, omega arith, ground (arith, e))
    | inr e ↦ (2 ^ 64 - 1 - ticks, ground (arith, e), ground (arith, e))
  ]

  spin-Held : (hosts : List Host) (m : Main) → Held m.pak → Held (spin hosts m).pak
  unfolding spin
  spin-Held [] m h = h
  spin-Held (host ∷ hosts) m h =
      let (t, p) = ticks-update_gfx host m in
      spin-Held hosts (update_gfx host m).0 (rw p (turn-Held m.ticks m.pak h))

  spin-clean :
      (hosts : List Host) (m : Main)
      → q < 4
      → IsSynced m.pak
      → (is_clean m.pak q ≡ true) ⊎ Due (length hosts) m.ticks
      → is_clean (spin hosts m).pak q ≡ true
  unfolding spin Due
  spin-clean [] m l v (inl c) = c
  spin-clean [] m l v (inr (i, below, z)) = absurd (omega arith)
  spin-clean (host ∷ hosts) m l v c =
      let (t, p) = ticks-update_gfx host m in
      let synced = turn-IsSynced m.ticks m.pak v in
      let now : (is_clean m.pak q ≡ true) ⊎ (tick m.ticks % 60 ≡ 0)
          → is_clean (spin hosts (update_gfx host m).0).pak q ≡ true =
        λ d.
          spin-clean hosts (update_gfx host m).0 l (rw p synced)
            (inl (rw p (turn-clean m.ticks m.pak l v d))) in
      elim c [
        | inl k ↦ now (inl k)
        | inr due ↦ elim (Due-tick (length hosts) m.ticks due) [
          | inl z ↦ now (inr z)
          | inr d ↦ spin-clean hosts (update_gfx host m).0 l (rw p synced) (inr (rw t d))
        ]
      ]

synced_saves :
    (m : Main) (hosts : List Host) (port b : ℕ)
    → IsSynced m.pak
    → port < 4
    → m.ticks < 2 ^ 64
    → length hosts ≡ 60
    → (block (restart (spin hosts m).pak) port b ≡ block m.pak port b)
      × (block (restart (shutdown_platform m).pak) port b ≡ block m.pak port b)
unfolding block Held shutdown_platform
synced_saves m hosts port b v p l n =
    let (synced, same) = spin-Held m.pak port hosts m (v, refl) in
    let due : Due m.pak port (length hosts) m.ticks = rw n (Due-60 m.pak port m.ticks l) in
    let clean = spin-clean m.pak port hosts m p v (inr due) in
    let at : List ℕ → List ℕ = slice (b * block_size) block_size in
    (
      ap at (image-restart (spin hosts m).pak port synced clean ∙ same),
      ap at (
          image-restart (flush m.pak) port (flush-IsSynced m.pak v) (flush-clean m.pak port v p)
          ∙ image-flush m.pak port),
    )

-- On a disk on which every pak file can be read and written in full, with a storage directory set first,
-- and after any reads, writes and flushes: sixty rounds of the main loop, wherever its count of ticks
-- stands and whatever the pads and the focus do, put every block of a pak on disk, so that a restart of
-- the process after them finds it as it was before them. So does a shutdown at any time.
pub spin-saves :
    (d : Disk) (dir : List ℕ) (ops : List Op) (m : Main) (hosts : List Host) (port b : ℕ)
    → is_empty dir ≡ false
    → IsHealthy d
    → m.pak ≡ run (set_storage_directory (initial d) dir) ops
    → port < 4
    → m.ticks < 2 ^ 64
    → length hosts ≡ 60
    → (block (restart (spin hosts m).pak) port b ≡ block m.pak port b)
      × (block (restart (shutdown_platform m).pak) port b ≡ block m.pak port b)
spin-saves d dir ops m hosts port b n h e = synced_saves m hosts port b (
    subst IsSynced (sym e)
      (run-IsSynced (set_storage_directory (initial d) dir) ops (boot-IsSynced d dir n h)))
