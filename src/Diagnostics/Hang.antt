-- ===== src/Diagnostics/Hang.antt =====
-- The hang watchdog: `watch_for_hang`, `watch_done` and the thread that looks every 100 ms. Times are in
-- milliseconds.
use hybrid_heaven_recomp.Prelude.{
  ℕ, ◌+◌, ◌*◌, Bool, true, false, ◌||◌, Option, none, some, List, [], ◌∷◌, ◌++◌, ◌==◌, ltb, take,
  update, if◌then◌else◌,
}

-- `g_watch_deadline_ms`, `g_watch_what`, `g_watch_seconds` and `g_watch_target`, whether each thread is
-- registered, and whether the watchdog's own thread runs.
pub record Watch : Type 0 where
  pub deadline : ℕ
  pub what : Option (List ℕ)
  pub seconds : ℕ
  pub target : ℕ
  pub known : ℕ → Bool
  pub running : Bool

unfoldable pub arm : ℕ → List ℕ → ℕ → Watch → Watch
arm now what seconds s = record s {
  what = some what;
  seconds = seconds;
  deadline = now + seconds * 1000;
  running = true;
}

-- `duplicate` is the handle of the calling thread, if `DuplicateHandle` gives one.
unfoldable pub watch_for_hang : ℕ → Option ℕ → ℕ → List ℕ → ℕ → Watch → Watch
watch_for_hang thread duplicate now what seconds s =
    if s.known thread then arm now what seconds s else elim duplicate [
      | none ↦ s
      | some handle ↦
          arm now what seconds (record s { target = handle; known = update s.known thread true })
    ]

unfoldable pub watch_done : Watch → Watch
watch_done s = record s { deadline = 0 }

-- A call of `report_hang`.
pub record Hang : Type 0 where
  pub thread : ℕ
  pub what : List ℕ
  pub seconds : ℕ

abbrev pub watched_work : List ℕ
watched_work =
    b'w' ∷ b'a' ∷ b't' ∷ b'c' ∷ b'h' ∷ b'e' ∷ b'd' ∷ b' ' ∷ b'w' ∷ b'o' ∷ b'r' ∷ b'k' ∷ []

unfoldable pub named : Option (List ℕ) → List ℕ
named none = watched_work
named (some what) = what

-- One round of `watch_thread`.
unfoldable pub watch_look : ℕ → Watch → Watch × Option Hang
watch_look now s = if s.deadline == 0 || ltb now s.deadline then (s, none) else (
  record s { deadline = 0 },
  some record { thread = s.target; what = named s.what; seconds = s.seconds },
)

-- What a sample of the thread gives: it cannot be suspended, it has no context, or an address.
pub data Sample : Type 0 where
  lost : Sample
  blind : Sample
  address : ℕ → Sample

unfoldable pub is_seen : ℕ → List ℕ → Bool
is_seen rip [] = false
is_seen rip (other ∷ others) = rip == other || is_seen rip others

unfoldable pub see : ℕ → List ℕ → List ℕ
see rip seen = if rip == 0 || is_seen rip seen then seen else seen ++ rip ∷ []

unfoldable pub collect : List Sample → List ℕ → List ℕ
collect [] seen = seen
collect (lost ∷ samples) seen = seen
collect (blind ∷ samples) seen = collect samples seen
collect (address rip ∷ samples) seen = collect samples (see rip seen)

-- The addresses that `report_hang` describes, of its 40 samples.
unfoldable pub report_hang : List Sample → List ℕ
report_hang samples = collect (take 40 samples) []
