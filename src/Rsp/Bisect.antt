-- ===== src/Rsp/Bisect.antt =====
-- `rerun_audio_task` and `bisect_audio_task`.
use hybrid_heaven_recomp.Prelude.{
  ℕ, zero, suc, ◌+◌, ◌-◌, ◌*◌, ◌/◌, ◌%◌, ◌^◌, Bool, not, if◌then◌else◌,
}
use hybrid_heaven_recomp.Rsp.Task.{
  RspExitReason, Bytes, Machine, OsTask, Microcode, Globals, put_bytes, same_bytes, is_broke,
}

-- `what`, with the number of commands of the first prefix that went wrong.
pub data Finding : Type 0 where
  every_prefix_clean : Finding
  damages_the_table : ℕ → Finding
  failed_unseen : ℕ → Finding

module _ (mc : Microcode) where
  -- The first commands of the task again, from a fresh DMEM.
  unfoldable pub rerun_audio_task : Globals → ℕ → ℕ → Machine → Machine × RspExitReason
  rerun_audio_task g ucode_addr count s =
      let copy : OsTask = record g.audio_task { data_size = count * 8 % 2 ^ 32 } in
      let placed = put_bytes s.dmem 0xFC0 (mc.task_bytes copy) 0x40 in
      mc.asp_main_run
        (record s { dmem = mc.dma s.rdram placed g.audio_task.ucode_data (0xF80 - 1) }) ucode_addr

  -- What a run of a prefix shows, against the DMEM that was loaded.
  unfoldable pub is_damaged : Bytes → Machine → Bool
  is_damaged pristine s = not (same_bytes s.dmem pristine 0x10 0x20)

  -- The loop, with the rounds left and the number of the last prefix that ran.
  unfoldable pub bisect_from : Globals → ℕ → Bytes → ℕ → ℕ → Machine → Machine × Finding
  bisect_from g ucode_addr pristine zero n s = (s, every_prefix_clean)
  bisect_from g ucode_addr pristine (suc rounds) n s =
      let (s', r) = rerun_audio_task g ucode_addr (n + 1) s in
      let rest = bisect_from g ucode_addr pristine rounds (n + 1) s' in
      if is_damaged pristine s'
      then (s', damages_the_table (n + 1))
      else if not (is_broke r)
      then (s', failed_unseen (n + 1))
      else rest

  unfoldable pub bisect_audio_task : Globals → ℕ → Machine → Machine × Finding
  bisect_audio_task g ucode_addr s =
      let loaded = mc.dma s.rdram s.dmem g.audio_task.ucode_data (0xF80 - 1) in
      bisect_from g ucode_addr loaded (g.audio_task_size / 8) 0 (record s { dmem = loaded })
