-- ===== src/Rsp/Tests.antt =====
-- A microcode that breaks at a command, and its tasks.
use hybrid_heaven_recomp.Prelude.{
  ◌≤◌, ◌<◌, ◌⊎◌, ◌+◌, ◌%◌, ◌^◌, ◌≡◌, refl, false, ltb, leb, arith, update, if◌then◌else◌,
}
use hybrid_heaven_recomp.Rsp.Task.{
  broke, unhandled_jump_target, Machine, OsTask, Microcode, Globals, asp_main_watched,
  get_rsp_microcode, is_broke, put_bytes, same_bytes,
}
use hybrid_heaven_recomp.Rsp.Bisect.{
  damages_the_table, rerun_audio_task, is_damaged, bisect_from, bisect_audio_task,
}
use hybrid_heaven_recomp.Rsp.Watched.{prepare, run_watched}
use hybrid_heaven_recomp.Rsp.Private.{IsPrivate, audio_task-IsPrivate, run_watched-broke}
use hybrid_heaven_recomp.Rsp.First.{Shows, bisect_audio_task-Shows}

-- The size of its list is the byte at 0xFC0. From three commands on, it writes into the jump table.
abbrev third_breaks : Microcode
third_breaks = record {
  asp_main_run = λ s u.
      if ltb (s.dmem 0xFC0) 24
      then (s, broke)
      else (record s { dmem = update s.dmem 0x20 1 }, unhandled_jump_target);
  mem_w_store = λ d offset at v. update d (at + offset) v;
  dma = λ rdram dmem at n a. if leb a n then 0 else dmem a;
  task_bytes = λ t i. t.data_size;
}

abbrev audio_task : OsTask
audio_task = record {
  ucode = 0x8003_6530;
  ucode_data = 0x8004_0000;
  data_ptr = 0x8020_0000;
  data_size = 40;
}

abbrev some_globals : Globals
some_globals = record {
  audio_task_data = 0x8020_0000;
  audio_task_size = 40;
  audio_task_original_ptr = 0x8020_0000;
  audio_task = audio_task;
  others = 0;
  reported = false;
  runs = 0;
  changed_runs = 0;
  dropped = 0;
}

abbrev machine : Machine
machine = record { rdram = λ a. a % 256; dmem = λ a. 0 }

finds_the_third :
    (bisect_audio_task third_breaks some_globals 0x8003_6530 machine).1 ≡ damages_the_table 3
unfolding bisect_audio_task bisect_from rerun_audio_task is_damaged same_bytes put_bytes is_broke
finds_the_third = refl

bisect_audio_task-Shows_example :
    Shows third_breaks some_globals 0x8003_6530
      (λ a. if leb a 0xF7F then 0 else 0)
      (record machine { dmem = λ a. if leb a 0xF7F then 0 else 0 })
      5
      (bisect_audio_task third_breaks some_globals 0x8003_6530 machine).0
      (bisect_audio_task third_breaks some_globals 0x8003_6530 machine).1
bisect_audio_task-Shows_example =
    bisect_audio_task-Shows third_breaks some_globals 0x8003_6530 machine

audio_task-IsPrivate_example :
    let (ucode, g') = get_rsp_microcode audio_task some_globals in
    let (g'', t) = prepare third_breaks g' machine in
    (ucode ≡ asp_main_watched)
    × (g''.audio_task_original_ptr ≡ 0x8020_0000)
    × (((40 ≤ 0x1_0000)
          × IsPrivate third_breaks audio_task machine t
          × (g''.audio_task_data ≡ 0x807F_0000)
          × (g''.audio_task.data_ptr ≡ 0x807F_0000))
        ⊎ ((0x1_0000 < 40)
            × (t ≡ machine)
            × (g''.audio_task_data ≡ 0x8020_0000)
            × (g''.audio_task.data_ptr ≡ 0x8020_0000)))
audio_task-IsPrivate_example =
    audio_task-IsPrivate third_breaks audio_task some_globals machine refl (omega arith)

run_watched-broke_example :
    let (t, g', reason) = run_watched third_breaks 0x8003_6530 some_globals machine in
    let ended =
      (third_breaks.asp_main_run (prepare third_breaks some_globals machine).1 0x8003_6530).1 in
    (reason ≡ broke) × (g'.dropped ≡ (if is_broke ended then 0 else 1 % 2 ^ 64))
run_watched-broke_example = run_watched-broke third_breaks 0x8003_6530 some_globals machine
