-- ===== src/Rsp/Private.antt =====
-- The microcode runs from a copy of the list that the game cannot rewrite, and its task always ends.
use hybrid_heaven_recomp.Prelude.{
  ℕ, ◌+◌, ◌-◌, ◌%◌, ◌^◌, ◌≤◌, ◌<◌, ◌≡◌, ◌⊎◌, inl, inr, refl, ap, ◌∙◌, true, false, ltb, leb, arith,
  if◌then◌else◌, Bool-cases, leb→le,
}
use hybrid_heaven_recomp.Rsp.Task.{
  RspExitReason, broke, invalid, imem_overrun, unhandled_jump_target, unsupported, swap_overlay,
  unhandled_resume_target, Bytes, Machine, OsTask, Microcode, Globals, asp_main_watched, copy_bytes,
  is_broke, get_rsp_microcode,
}
use hybrid_heaven_recomp.Rsp.Watched.{
  original_base, redirected, note_rewrite, note_dropped, prepare, finish, run_watched,
}

-- The machine a task runs on, from the one it was handed.
pub record IsPrivate (mc : Microcode) (task : OsTask) (s t : Machine) : Type 0 where
  pub copied :
      (i : ℕ) → i < task.data_size → t.rdram (0x7F_0000 + i) ≡ s.rdram (task.data_ptr % 2 ^ 24 + i)
  pub kept : (a : ℕ) → (a < 0x7F_0000) ⊎ (0x7F_0000 + task.data_size ≤ a) → t.rdram a ≡ s.rdram a
  pub pointed : t.dmem ≡ mc.mem_w_store s.dmem 0x30 0xFC0 0x807F_0000

copy_bytes_inside :
    (memory : Bytes) (to from n i : ℕ)
    → i < n
    → copy_bytes memory to from n (to + i) ≡ memory (from + i)
unfolding copy_bytes
copy_bytes_inside memory to from n i h =
    let at : to + i - to ≡ i = omega arith in
    let low : leb to (to + i) ≡ true = ground arith in
    let high : ltb (to + i) (to + n) ≡ true = ground arith in rw (low, high, at) refl

copy_bytes_outside :
    (memory : Bytes) (to from n a : ℕ)
    → (a < to) ⊎ (to + n ≤ a)
    → copy_bytes memory to from n a ≡ memory a
unfolding copy_bytes
copy_bytes_outside memory to from n a (inl h) =
    let low : leb to a ≡ false = ground arith in rw low refl
copy_bytes_outside memory to from n a (inr h) =
    let low : leb to a ≡ true = ground arith in
    let high : ltb a (to + n) ≡ false = ground arith in rw (low, high) refl

-- A task whose microcode lies at aspMain's text, whatever its segment, with a list below the scratch
-- region. A list of at most 64 KiB stands, on the machine that the microcode runs on, at 0x807F0000 byte
-- for byte, the word at DMEM 0xFC0 + 0x30 points to it, and no other byte of RDRAM has changed; what the
-- task records of its list follows it. Before a longer list, the microcode runs on the machine and with
-- the list that it was handed.
pub audio_task-IsPrivate :
    (mc : Microcode) (task : OsTask) (g : Globals) (s : Machine)
    → task.ucode % 2 ^ 24 ≡ 0x03_6530
    → task.data_ptr % 2 ^ 24 + task.data_size ≤ 0x7F_0000
    → let (ucode, g') = get_rsp_microcode task g in
      let (g'', t) = prepare mc g' s in
      (ucode ≡ asp_main_watched)
      × (g''.audio_task_original_ptr ≡ task.data_ptr)
      × (((task.data_size ≤ 0x1_0000)
            × IsPrivate mc task s t
            × (g''.audio_task_data ≡ 0x807F_0000)
            × (g''.audio_task.data_ptr ≡ 0x807F_0000))
          ⊎ ((0x1_0000 < task.data_size)
              × (t ≡ s)
              × (g''.audio_task_data ≡ task.data_ptr)
              × (g''.audio_task.data_ptr ≡ task.data_ptr)))
unfolding get_rsp_microcode prepare redirected original_base
audio_task-IsPrivate mc task g s h below = elim (Bool-cases (leb task.data_size 0x1_0000)) [
  | inl e ↦
      let private : IsPrivate mc task s _ = record {
        copied =
            λ i l. copy_bytes_inside s.rdram 0x7F_0000 (task.data_ptr % 2 ^ 24) task.data_size i l;
        kept = copy_bytes_outside s.rdram 0x7F_0000 (task.data_ptr % 2 ^ 24) task.data_size;
        pointed = refl;
      } in
      rw (h, e) (refl, refl, inl (leb→le task.data_size 0x1_0000 e, private, refl, refl))
  | inr e ↦ rw (h, e) (refl, refl, inr (ground (arith, e), refl, refl, refl))
]

is_broke→broke : (r : RspExitReason) → is_broke r ≡ true → r ≡ broke
unfolding is_broke
is_broke→broke broke e = refl
is_broke→broke invalid e = absurd cc
is_broke→broke imem_overrun e = absurd cc
is_broke→broke unhandled_jump_target e = absurd cc
is_broke→broke unsupported e = absurd cc
is_broke→broke swap_overlay e = absurd cc
is_broke→broke unhandled_resume_target e = absurd cc

finish-broke :
    (mc : Microcode) (ucode_addr : ℕ) (before : Bytes) (g : Globals) (o : Machine × RspExitReason)
    → let (s, g', reason) = finish mc ucode_addr before g o in
      (reason ≡ broke)
      × (g'.dropped ≡ (if is_broke o.1 then g.dropped else (g.dropped + 1) % 2 ^ 64))
unfolding finish note_dropped note_rewrite
finish-broke mc ucode_addr before g (s, reason) = elim (Bool-cases (is_broke reason)) [
  | inl e ↦ rw (e, is_broke→broke reason e) (refl, refl)
  | inr e ↦ rw e (refl, refl)
]

prepare-dropped :
    (mc : Microcode) (g : Globals) (s : Machine) → (prepare mc g s).0.dropped ≡ g.dropped
unfolding prepare redirected
prepare-dropped mc g s = elim (Bool-cases (leb g.audio_task_size 0x1_0000)) [
  | inl e ↦ rw e refl
  | inr e ↦ rw e refl
]

-- Whatever the microcode does to memory and however it ends, librecomp is told that the task reached its
-- break, and the frames that are dropped are the runs that did not.
pub run_watched-broke :
    (mc : Microcode) (ucode_addr : ℕ) (g : Globals) (s : Machine)
    → let (t, g', reason) = run_watched mc ucode_addr g s in
      let ended = (mc.asp_main_run (prepare mc g s).1 ucode_addr).1 in
      (reason ≡ broke)
      × (g'.dropped ≡ (if is_broke ended then g.dropped else (g.dropped + 1) % 2 ^ 64))
unfolding run_watched
run_watched-broke mc ucode_addr g s =
    let (g', s') = prepare mc g s in
    let (b, d) = finish-broke mc ucode_addr s'.rdram g' (mc.asp_main_run s' ucode_addr) in
    let failed = is_broke (mc.asp_main_run s' ucode_addr).1 in
    (b, d ∙ ap (λ n. if failed then n else (n + 1) % 2 ^ 64) (prepare-dropped mc g s))
