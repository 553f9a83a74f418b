-- ===== src/Platform/Loop.antt =====
-- `update_gfx`, the body of the main loop, and `shutdown_platform`. The pads are refreshed by `poll_input`
-- of the build with the frontend.
use hybrid_heaven_recomp.Prelude.{
  ℕ, ◌+◌, ◌%◌, ◌^◌, Bool, true, not, ◌&&◌, Option, none, some, List, ◌==◌, if◌then◌else◌,
}
use hybrid_heaven_recomp.Pak.Store.{Store, flush}
use hybrid_heaven_recomp.Platform.Pads.{
  Joystick, refresh_primary_controller, Players, refresh_players,
}

-- `focus` is the window's flag, where there is a window.
pub record Host : Type 0 where
  pub attached : ℕ → Bool
  pub joysticks : List Joystick
  pub focus : Option Bool

pub record Main : Type 0 where
  pub ticks : ℕ
  pub pak : Store
  pub controller : Option ℕ
  pub players : Players
  pub window_focused : Bool
  pub mute_unfocused : Bool

-- What the main loop calls of the input library: `auto_assign_controllers`, and whether the motor is
-- stopped.
pub record Calls : Type 0 where
  pub auto_assign : Option (List ℕ)
  pub rumble_off : Bool

unfoldable pub poll_input : Host → Main → Main × Option (List ℕ)
poll_input host s =
    let (players', call) = refresh_players host.joysticks s.players in
    (
      record s {
        controller = refresh_primary_controller host.attached host.joysticks s.controller;
        players = players';
      },
      call,
    )

unfoldable pub flush_if : Bool → Store → Store
flush_if due s = if due then flush s else s

unfoldable pub is_focused : Option Bool → Bool
is_focused none = true
is_focused (some focus) = focus

unfoldable pub update_gfx : Host → Main → Main × Calls
update_gfx host s =
    let ticks' = (s.ticks + 1) % 2 ^ 64 in
    let (t, call) = poll_input host (record s { ticks = ticks' }) in
    let focused = is_focused host.focus in
    (
      record t { pak = flush_if (ticks' % 60 == 0) t.pak; window_focused = focused },
      record { auto_assign = call; rumble_off = not focused && t.mute_unfocused },
    )

unfoldable pub shutdown_platform : Main → Main
shutdown_platform s = record s { pak = flush s.pak; controller = none }
