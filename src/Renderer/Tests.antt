-- ===== src/Renderer/Tests.antt =====
-- A frame through the census and the rewriter, and the calls of the renderer.
use hybrid_heaven_recomp.Prelude.{
  Floats, ℕ, ◌+◌, ◌*◌, ◌-◌, ◌≡◌, ◌⊎◌, refl, pos, negsuc, bit_or, true, false, none, some, List, [],
  ◌∷◌, ◌==◌, ltb, leb, bytes_eq,
}
use hybrid_heaven_recomp.Hud.Memory.{Rdram, write_commands}
use hybrid_heaven_recomp.Hud.Gbi.{Gbi, Class, left}
use hybrid_heaven_recomp.Hud.Rewrite.{scratch}
use hybrid_heaven_recomp.Census.State.{Texts}
use hybrid_heaven_recomp.Census.Snaps.{Snapping}
use hybrid_heaven_recomp.Renderer.Submit.{
  DrawSettings, Submitter, Sent, send_dl, console, present_early, presentation_mode,
}
use hybrid_heaven_recomp.Renderer.Context.{
  physical_address, new_context, success, msaa_4x, no_antialiasing, is_success, translate,
  update_config, to_rt64_msaa, send_dl_rt64, update_screen, shutdown, other_failure,
}
use hybrid_heaven_recomp.Renderer.Autostart.{is_armed, maybe_autostart}
use hybrid_heaven_recomp.Renderer.Submitted.{Outside, send_dl-confined}

abbrev counting : Floats ℕ
counting = record {
  int = λ n. elim n [ pos m ↦ m | negsuc m ↦ 0 ];
  add = λ a b. a + b;
  sub = λ a b. a - b;
  mul = λ a b. a * b;
  div = λ a b. a;
  neg = λ a. a;
  lt = ltb;
  le = leb;
  eq = λ a b. a == b;
  atan = λ a. a;
  float = λ a. a;
  pi = 3;
}

abbrev no_texts : Texts ℕ
no_texts = record {
  viewport_text = λ a b c d. [];
  scissor_text = λ a b c d e. a ∷ [];
  persp_text = λ l a b c d. [];
  ortho_text = λ l a b c d. a ∷ [];
}

abbrev renderer_gbi : Gbi
renderer_gbi = record {
  enable = (0x6400_0000, 1);
  set_scissor = λ mode l r ulx uly lrx lry. ((0x6400_0001, l), (0, r));
  set_rect_align = λ l r ulx uly lrx lry. ((0x6400_0002, l), (0, r));
  set_rect_aspect = λ aspect. (0x6400_0003, aspect);
  matrix_group = λ aspect. ((0x6400_0004, aspect), (0, 0));
  set_viewport_align = λ origin x y. ((0x6400_0005, origin), (0, 0));
  origin_left = 0;
  origin_right = 0x400;
  origin_none = 0x800;
  aspect_stretch = 1;
  aspect_auto = 0;
}

abbrev all_left : List ℕ → Class
all_left id = left

-- A scissor of the low resolution with mode 1, a fill rectangle and the end.
abbrev frame_rdram : Rdram
frame_rdram =
    write_commands (λ phys. 0) 0x1000
      ((0xED04_0020, 0x014C_03A0) ∷ (0xF64B_C07C, 0x0004_0020) ∷ (0xDF00_0000, 0) ∷ [])

abbrev frame_settings : DrawSettings
frame_settings = record {
  full_frame = true;
  inspected = true;
  no_rewrite = false;
  have_classes = true;
  every = pos 3;
}

abbrev first_frame : Submitter
first_frame = record { rewriter = record { turn = true; rdram = frame_rdram }; lists = 0 }

abbrev sent_frame : Submitter × Sent ℕ
sent_frame = send_dl counting no_texts renderer_gbi all_left frame_settings first_frame 0x8000_1000

send_dl-confined_example :
    (mid : Rdram) × (n : ℕ) × Snapping frame_rdram 0 mid n
    × (true ≡ false → n ≡ 0)
    × ((a : ℕ) → Outside a sent_frame.0.rewriter.turn → sent_frame.0.rewriter.rdram a ≡ mid a)
    × ((sent_frame.1.data_ptr ≡ 0x8000_1000)
        ⊎ (sent_frame.1.data_ptr ≡ bit_or 0x8000_0000 (scratch sent_frame.0.rewriter.turn)))
send_dl-confined_example =
    send_dl-confined counting no_texts renderer_gbi all_left frame_settings first_frame 0x8000_1000

presents :
    (presentation_mode none ≡ present_early)
    × (presentation_mode (some (b'c' ∷ b'o' ∷ b'n' ∷ b's' ∷ b'o' ∷ b'l' ∷ b'e' ∷ [])) ≡ console)
unfolding presentation_mode bytes_eq
presents = (refl, refl)

-- The 60th round of the main loop starts the game, and the next one does not.
sixtieth :
    (maybe_autostart (is_armed (some (b'1' ∷ []))) true (record { frames = 59; fired = false })
      ≡ (record { frames = 60; fired = true }, some true))
    × (maybe_autostart true true (record { frames = 60; fired = true })
        ≡ (record { frames = 60; fired = true }, none))
unfolding maybe_autostart is_armed
sixtieth = (refl, refl)

-- A list goes to RT64 at its physical address, and after the end nothing does.
physical_list :
    ((send_dl_rt64 false
        (record { ucode = 0x8012_3450; ucode_data = 0; data_ptr = 0x8013_88D0 })
        (new_context no_antialiasing success)).1
      ≡ some record { ucode = 0x12_3450; ucode_data = 0; processed_list = some 0x13_88D0 })
    × ((send_dl_rt64 false
          (record { ucode = 0; ucode_data = 0; data_ptr = 0 })
          (shutdown (new_context no_antialiasing success)).0).1
        ≡ none)
    × ((update_screen (new_context no_antialiasing other_failure)).1 ≡ false)
    × ((update_config false msaa_4x (new_context no_antialiasing success)).0.antialiasing ≡ msaa_4x)
unfolding send_dl_rt64 physical_address new_context shutdown update_screen update_config is_success
    translate to_rt64_msaa
physical_list = (refl, refl, refl, refl)
