-- ===== src/Rsp/First.antt =====
-- The search ends at the first prefix that goes wrong.
use hybrid_heaven_recomp.Prelude.{
  ℕ, zero, suc, ◌+◌, ◌/◌, ◌≤◌, ◌≡◌, inl, inr, true, false, arith, Bool-cases,
}
use hybrid_heaven_recomp.Rsp.Task.{Bytes, Machine, Microcode, Globals, is_broke}
use hybrid_heaven_recomp.Rsp.Bisect.{
  Finding, every_prefix_clean, damages_the_table, failed_unseen, rerun_audio_task, is_damaged,
  bisect_from, bisect_audio_task,
}

module _ (mc : Microcode) (g : Globals) (ucode_addr : ℕ) (pristine : Bytes) where
  -- Prefixes of 1, 2, … commands that ran one after the other, reached their break and left the table as
  -- it was loaded.
  pub data CleanTo (s0 : Machine) : ℕ → Machine → Type 0 where
    start : CleanTo s0 0 s0
    more :
        {n : ℕ} {s : Machine}
        → CleanTo s0 n s
        → is_damaged mc pristine (rerun_audio_task mc g ucode_addr (n + 1) s).0 ≡ false
        → is_broke (rerun_audio_task mc g ucode_addr (n + 1) s).1 ≡ true
        → CleanTo s0 (n + 1) (rerun_audio_task mc g ucode_addr (n + 1) s).0

  -- What a finding says of a task of so many commands.
  pub data Shows (s0 : Machine) (total : ℕ) : Machine → Finding → Type 0 where
    clean : {s : Machine} → CleanTo s0 total s → Shows s0 total s every_prefix_clean
    damages :
        {n : ℕ} {s : Machine}
        → CleanTo s0 n s
        → n + 1 ≤ total
        → is_damaged mc pristine (rerun_audio_task mc g ucode_addr (n + 1) s).0 ≡ true
        → Shows s0 total (rerun_audio_task mc g ucode_addr (n + 1) s).0 (damages_the_table (n + 1))
    fails :
        {n : ℕ} {s : Machine}
        → CleanTo s0 n s
        → n + 1 ≤ total
        → is_damaged mc pristine (rerun_audio_task mc g ucode_addr (n + 1) s).0 ≡ false
        → is_broke (rerun_audio_task mc g ucode_addr (n + 1) s).1 ≡ false
        → Shows s0 total (rerun_audio_task mc g ucode_addr (n + 1) s).0 (failed_unseen (n + 1))

  bisect_from-Shows :
      (s0 : Machine) (rounds n total : ℕ) (s : Machine)
      → CleanTo s0 n s
      → n + rounds ≡ total
      → Shows s0 total
          (bisect_from mc g ucode_addr pristine rounds n s).0
          (bisect_from mc g ucode_addr pristine rounds n s).1
  unfolding bisect_from
  bisect_from-Shows s0 zero n total s c e =
      let same : n ≡ total = omega arith in clean (rw⁻¹ same c)
  bisect_from-Shows s0 (suc rounds) n total s c e =
      let (s', r) = rerun_audio_task mc g ucode_addr (n + 1) s in
      elim (Bool-cases (is_damaged mc pristine s')) [
        | inl d ↦ rw d (damages c (omega arith) d)
        | inr d ↦ elim (Bool-cases (is_broke r)) [
          | inl b ↦
              rw (d, b)
                (bisect_from-Shows s0 rounds (n + 1) total s' (more c d b) (omega (arith, e)))
          | inr b ↦ rw (d, b) (fails c (omega arith) d b)
        ]
      ]

-- The search ends, and says what it found: that every prefix of the task's commands runs clean one after
-- the other, or the number of the first that does not, with every shorter one clean, and which of the two
-- failures it has.
pub bisect_audio_task-Shows :
    (mc : Microcode) (g : Globals) (ucode_addr : ℕ) (s : Machine)
    → let loaded = mc.dma s.rdram s.dmem g.audio_task.ucode_data 0xF7F in
      let (t, found) = bisect_audio_task mc g ucode_addr s in
      Shows mc g ucode_addr loaded (record s { dmem = loaded }) (g.audio_task_size / 8) t found
unfolding bisect_audio_task
bisect_audio_task-Shows mc g ucode_addr s =
    let loaded = mc.dma s.rdram s.dmem g.audio_task.ucode_data 0xF7F in
    bisect_from-Shows mc g ucode_addr loaded (record s { dmem = loaded }) (g.audio_task_size / 8) 0
      (g.audio_task_size / 8) (record s { dmem = loaded }) start (omega arith)
