-- ===== src/Platform/Tests.antt =====
-- Pads that come and go, windows, and a save.
use hybrid_heaven_recomp.Prelude.{
  List, ℕ, ◌+◌, ◌-◌, ◌*◌, ◌^◌, ◌≡◌, refl, pos, negsuc, true, false, none, some, [], ◌∷◌, ◌==◌, ltb,
  leb, arith, replicate, length-replicate, Floats,
}
use hybrid_heaven_recomp.Pak.Format.{pak_size}
use hybrid_heaven_recomp.Pak.Disk.{Disk}
use hybrid_heaven_recomp.Pak.Store.{Store, initial, set_storage_directory}
use hybrid_heaven_recomp.Pak.Store.Blocks.{block}
use hybrid_heaven_recomp.Pak.Store.Sync.{IsHealthy}
use hybrid_heaven_recomp.Pak.Store.Reboot.{restart, Op, write, run}
use hybrid_heaven_recomp.Platform.Pads.{Joystick, first_opened, refresh_primary_controller}
use hybrid_heaven_recomp.Platform.Input.{Input, get_input, merge_script, normal, has_player, whole}
use hybrid_heaven_recomp.Platform.Window.{too_large, scale_down, windowed, window_size}
use hybrid_heaven_recomp.Platform.Loop.{Host, Main, shutdown_platform}
use hybrid_heaven_recomp.Platform.Fits.{IsLargest, window_size-IsLargest}
use hybrid_heaven_recomp.Platform.Saves.{spin, spin-saves}

abbrev wheel : Joystick
wheel = record { is_controller = false; opens = some 9 }

abbrev first_pad : Joystick
first_pad = record { is_controller = true; opens = some 5 }

abbrev broken_pad : Joystick
broken_pad = record { is_controller = true; opens = none }

abbrev second_pad : Joystick
second_pad = record { is_controller = true; opens = some 6 }

primary_kept :
    (refresh_primary_controller (λ p. p == 6) (wheel ∷ broken_pad ∷ first_pad ∷ []) (some 6)
      ≡ some 6)
    × (refresh_primary_controller (λ p. false) (wheel ∷ broken_pad ∷ first_pad ∷ []) (some 6)
        ≡ some 5)
unfolding refresh_primary_controller first_opened
primary_kept = (refl, refl)

abbrev counting : Floats ℕ
counting = record {
  int = λ n. elim n [ pos m ↦ m | negsuc m ↦ 0 ];
  add = λ a b. a + b;
  sub = λ a b. a - b;
  mul = λ a b. a * b;
  div = λ a b. a;
  neg = λ a. a;
  lt = ltb;
  le = leb;
  eq = λ a b. a == b;
  atan = λ a. a;
  float = λ a. a;
  pi = 3;
}

abbrev held : Input ℕ
held = record { buttons = 0x8000; x = 1; y = 0 }

abbrev scripted : Input ℕ
scripted = record { buttons = 0x1000; x = 0; y = 7 }

merged :
    get_input counting 0 (pos 0) false false false held scripted
    ≡ some record { buttons = 0x9000; x = 1; y = 7 }
unfolding get_input merge_script normal has_player whole
merged = refl

laptop :
    window_size none false none (some (1536, 816))
    ≡ record { width = 960; height = 720; fullscreen = false }
unfolding window_size windowed scale_down too_large
laptop = refl

window_size-IsLargest_example :
    (scale : ℕ) × IsLargest 1536 816 4 scale
    × (window_size none false none (some (1536, 816))
        ≡ record { width = 320 * scale; height = 240 * scale; fullscreen = false })
window_size-IsLargest_example = window_size-IsLargest none 1536 816

abbrev empty_disk : Disk
empty_disk = record {
  content = λ p. none;
  readable = λ p. true;
  writable = λ p. true;
  room = λ p. pak_size;
}

empty_disk-IsHealthy : IsHealthy empty_disk
empty_disk-IsHealthy = record {
  readable = λ p. refl;
  writable = λ p. refl;
  room = λ p. omega arith;
}

abbrev booted : Store
booted = set_storage_directory (initial empty_disk) (b'/' ∷ [])

abbrev one_write : List Op
one_write = write (pos 0) (pos 5) (replicate 32 7) ∷ []

abbrev playing : Main
playing = record {
  ticks = 2 ^ 64 - 7;
  pak = run booted one_write;
  controller = none;
  players = record { assigned_once = false; assigned = [] };
  window_focused = true;
  mute_unfocused = true;
}

abbrev quiet : Host
quiet = record { attached = λ p. false; joysticks = []; focus = none }

spin-saves_example :
    (block (restart (spin (replicate 60 quiet) playing).pak) 0 5 ≡ block playing.pak 0 5)
    × (block (restart (shutdown_platform playing).pak) 0 5 ≡ block playing.pak 0 5)
spin-saves_example =
    spin-saves empty_disk (b'/' ∷ []) one_write playing (replicate 60 quiet) 0 5 refl
      empty_disk-IsHealthy refl (omega arith) (omega arith) (length-replicate 60 quiet)
