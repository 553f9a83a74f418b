-- ===== src/Rsp/Task.antt =====
-- The globals of the audio task, and what librecomp and the recompiled microcode supply.
use hybrid_heaven_recomp.Prelude.{
  ℕ, zero, suc, ◌+◌, ◌-◌, ◌%◌, ◌^◌, Bool, true, false, ◌&&◌, ◌==◌, ltb, leb, if◌then◌else◌,
}

pub data RspExitReason : Type 0 where
  invalid broke imem_overrun unhandled_jump_target unsupported swap_overlay : RspExitReason
  unhandled_resume_target : RspExitReason

-- Bytes by their offset, as they lie in the host's memory.
abbrev pub Bytes : Type 0
Bytes = ℕ → ℕ

pub record Machine : Type 0 where
  pub rdram : Bytes
  pub dmem : Bytes

-- The fields that the code reads or writes; `task_bytes` has the whole structure.
pub record OsTask : Type 0 where
  pub ucode : ℕ
  pub ucode_data : ℕ
  pub data_ptr : ℕ
  pub data_size : ℕ

-- `aspMain_run`, which the game's threads may outpace: its result is whatever memory holds when it ends;
-- RSP_MEM_W_STORE, by its offset, address and value; `dma_rdram_to_dmem`, into address 0; and the 64 bytes
-- of an OSTask.
pub record Microcode : Type 0 where
  pub asp_main_run : Machine → ℕ → Machine × RspExitReason
  pub mem_w_store : Bytes → ℕ → ℕ → ℕ → Bytes
  pub dma : Bytes → Bytes → ℕ → ℕ → Bytes
  pub task_bytes : OsTask → Bytes

-- The globals, with `others`, `reported`, `runs`, `changed_runs` and `dropped` of the functions.
pub record Globals : Type 0 where
  pub audio_task_data : ℕ
  pub audio_task_size : ℕ
  pub audio_task_original_ptr : ℕ
  pub audio_task : OsTask
  pub others : ℕ
  pub reported : Bool
  pub runs : ℕ
  pub changed_runs : ℕ
  pub dropped : ℕ

abbrev pub asp_main_text_start : ℕ
asp_main_text_start = 0x8003_6530

abbrev pub command_list_scratch : ℕ
command_list_scratch = 0x807F_0000

abbrev pub command_list_scratch_size : ℕ
command_list_scratch_size = 0x1_0000

-- `memcpy` within a memory, where the ranges do not overlap.
unfoldable pub copy_bytes : Bytes → ℕ → ℕ → ℕ → Bytes
copy_bytes memory to from n a =
    if leb to a && ltb a (to + n) then memory (from + (a - to)) else memory a

-- `memcpy` from a buffer.
unfoldable pub put_bytes : Bytes → ℕ → Bytes → ℕ → Bytes
put_bytes memory to source n a = if leb to a && ltb a (to + n) then source (a - to) else memory a

-- `memcmp(...) == 0`, of so many bytes from an offset on.
unfoldable pub same_bytes : Bytes → Bytes → ℕ → ℕ → Bool
same_bytes p q at zero = true
same_bytes p q at (suc n) = p at == q at && same_bytes p q (at + 1) n

pub data Ucode : Type 0 where
  asp_main_watched rsp_unknown_ucode : Ucode

-- By the address of the microcode, without its segment.
unfoldable pub get_rsp_microcode : OsTask → Globals → Ucode × Globals
get_rsp_microcode task g =
    if task.ucode % 2 ^ 24 == asp_main_text_start % 2 ^ 24
    then (
      asp_main_watched,
      record g {
        audio_task_original_ptr = task.data_ptr;
        audio_task_data = task.data_ptr;
        audio_task_size = task.data_size;
        audio_task = task;
      },
    )
    else (rsp_unknown_ucode, record g { others = (g.others + 1) % 2 ^ 64 })

unfoldable pub run_unknown : Globals → Globals × RspExitReason
run_unknown g = (record g { reported = true }, broke)

unfoldable pub is_broke : RspExitReason → Bool
is_broke broke = true
is_broke invalid = false
is_broke imem_overrun = false
is_broke unhandled_jump_target = false
is_broke unsupported = false
is_broke swap_overlay = false
is_broke unhandled_resume_target = false
