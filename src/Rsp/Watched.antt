-- ===== src/Rsp/Watched.antt =====
-- `asp_main_watched`.
use hybrid_heaven_recomp.Prelude.{ℕ, ◌+◌, ◌%◌, ◌^◌, leb, if◌then◌else◌}
use hybrid_heaven_recomp.Rsp.Task.{
  RspExitReason, broke, Bytes, Machine, Microcode, Globals, command_list_scratch,
  command_list_scratch_size, copy_bytes, same_bytes, is_broke,
}
use hybrid_heaven_recomp.Rsp.Bisect.{bisect_audio_task}

unfoldable pub original_base : Globals → ℕ
original_base g = g.audio_task_original_ptr % 2 ^ 24

-- The task as it runs from the copy.
unfoldable pub redirected : Globals → Globals
redirected g = record g {
  audio_task_data = command_list_scratch;
  audio_task = record g.audio_task { data_ptr = command_list_scratch };
}

-- The count of the runs in which the game's own list changed, from what memory held before.
unfoldable pub note_rewrite : Bytes → Bytes → Globals → Globals
note_rewrite before after g = record g {
  runs = (g.runs + 1) % 2 ^ 64;
  changed_runs =
      if same_bytes before after (original_base g) g.audio_task_size
      then g.changed_runs
      else (g.changed_runs + 1) % 2 ^ 64;
}

unfoldable pub note_dropped : Globals → Globals
note_dropped g = record g { dropped = (g.dropped + 1) % 2 ^ 64 }

module _ (mc : Microcode) where
  -- Up to the run: the copy of the list, and the word of DMEM that says where it is.
  unfoldable pub prepare : Globals → Machine → Globals × Machine
  prepare g s =
      if leb g.audio_task_size command_list_scratch_size
      then (
        redirected g,
        record {
          rdram =
              copy_bytes s.rdram (command_list_scratch % 2 ^ 24) (original_base g)
                g.audio_task_size;
          dmem = mc.mem_w_store s.dmem 0x30 0xFC0 command_list_scratch;
        },
      )
      else (g, s)

  -- From the run's result on.
  unfoldable pub finish :
      ℕ → Bytes → Globals → Machine × RspExitReason → Machine × Globals × RspExitReason
  finish ucode_addr before g (s, reason) =
      let noted = note_rewrite before s.rdram g in
      let failed = note_dropped noted in
      let searched : Machine = (bisect_audio_task mc failed ucode_addr s).0 in
      if is_broke reason
      then (s, noted, reason)
      else (if leb failed.dropped 6 then searched else s, failed, broke)

  unfoldable pub run_watched : ℕ → Globals → Machine → Machine × Globals × RspExitReason
  run_watched ucode_addr g s =
      let (g', s') = prepare g s in finish ucode_addr s'.rdram g' (mc.asp_main_run s' ucode_addr)
