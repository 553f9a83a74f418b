-- ===== src/Diagnostics/Sampler.antt =====
-- The thread sampler of src/thread_sampler.cpp: one round over the threads of the process, and its report.
-- Addresses and counters are 64 bits wide.
use hybrid_heaven_recomp.Prelude.{
  ℕ, zero, suc, ◌+◌, ◌-◌, ◌%◌, ◌^◌, Bool, false, not, ◌&&◌, ◌||◌, Option, none, some, List, [], ◌∷◌,
  ◌++◌, ◌==◌, ltb, leb, take, if◌then◌else◌,
}

-- A thread of the system's list, and what the calls on it answer; a context is its Rip and Rsp.
pub record Thread : Type 0 where
  pub owner_process : ℕ
  pub id : ℕ
  pub opens : Bool
  pub suspends : Bool
  pub context : Option (ℕ × ℕ)

-- The system at one sample: its threads, if the list is given, the module of an address, the end of the
-- committed region that an address lies in, and the stacks.
pub record Snapshot : Type 0 where
  pub threads : Option (List Thread)
  pub owner : ℕ → Option ℕ
  pub committed : ℕ → Option ℕ
  pub stack : ℕ → ℕ

-- A `std::map` of counters, by its keys in order.
abbrev pub Counts : Type 0
Counts = List (ℕ × ℕ)

-- `m[key]++`
unfoldable pub increment : Counts → ℕ → Counts
increment [] key = (key, 1) ∷ []
increment ((first, n) ∷ rest) key =
    let later = increment rest key in
    if key == first
    then (first, (n + 1) % 2 ^ 64) ∷ rest
    else if ltb key first
    then (key, 1) ∷ (first, n) ∷ rest
    else (first, n) ∷ later

pub record Sampler : Type 0 where
  pub executing : Counts
  pub on_stacks : Counts
  pub parked : ℕ
  pub rounds : ℕ

unfoldable pub start_sampler : Sampler
start_sampler = record { executing = []; on_stacks = []; parked = 0; rounds = 0 }

unfoldable pub is_owner : ℕ → Option ℕ → Bool
is_owner main_module none = false
is_owner main_module (some owner) = owner == main_module

unfoldable pub in_main_module : Snapshot → ℕ → ℕ → Bool
in_main_module w main_module addr = is_owner main_module (w.owner addr)

-- As many words as there is room for, up to the end of the region.
unfoldable pub copy_words : Snapshot → ℕ → ℕ → ℕ → List ℕ
copy_words w end zero p = []
copy_words w end (suc room) p =
    let rest = copy_words w end room ((p + 8) % 2 ^ 64) in
    if leb ((p + 8) % 2 ^ 64) end then w.stack p ∷ rest else []

-- `kStackWords`
abbrev pub stack_words : ℕ
stack_words = 8192

unfoldable pub copy_stack_window : Snapshot → ℕ → List ℕ
copy_stack_window w rsp = elim (w.committed rsp) [
  | none ↦ []
  | some end ↦ copy_words w end stack_words rsp
]

module _ (own pid main_module : ℕ) where
  -- The window is read while the thread is suspended.
  unfoldable pub window_of : Snapshot → ℕ → ℕ → List ℕ
  window_of w rip rsp = if in_main_module w main_module rip then [] else copy_stack_window w rsp

  -- Whether the thread is left alone: of another process, the sampler's own, or not to be suspended.
  unfoldable pub is_skipped : Thread → Bool
  is_skipped t = not (t.owner_process == pid) || t.id == own || not t.opens || not t.suspends

  -- The addresses and the words, in the order of the threads.
  unfoldable pub gather : Snapshot → List Thread → List ℕ × List ℕ
  gather w [] = ([], [])
  gather w (t ∷ ts) =
      let (ips, words) = gather w ts in
      if is_skipped t then (ips, words) else elim t.context [
        | none ↦ (ips, words)
        | some (rip, rsp) ↦ (rip ∷ ips, window_of w rip rsp ++ words)
      ]

  unfoldable pub count_ip : Snapshot → ℕ → Sampler → Sampler
  count_ip w ip s =
      if in_main_module w main_module ip
      then record s { executing = increment s.executing ((ip + 2 ^ 64 - main_module) % 2 ^ 64) }
      else record s { parked = (s.parked + 1) % 2 ^ 64 }

  unfoldable pub count_ips : Snapshot → List ℕ → Sampler → Sampler
  count_ips w [] s = s
  count_ips w (ip ∷ ips) s = count_ips w ips (count_ip w ip s)

  unfoldable pub count_words : Snapshot → List ℕ → Counts → Counts
  count_words w [] m = m
  count_words w (word ∷ words) m = count_words w words (
      if not (word == 0) && in_main_module w main_module word
      then increment m ((word + 2 ^ 64 - main_module) % 2 ^ 64)
      else m)

  unfoldable pub count_sample : Snapshot → List ℕ × List ℕ → Sampler → Sampler
  count_sample w (ips, words) s =
      let s' = count_ips w ips s in record s' { on_stacks = count_words w words s'.on_stacks }

  unfoldable pub sample_threads : Snapshot → Option (List Thread) → Sampler → Sampler
  sample_threads w none s = s
  sample_threads w (some ts) s = count_sample w (gather w ts) s

  unfoldable pub sample_once : Snapshot → Sampler → Sampler
  sample_once w s = sample_threads w w.threads s

  -- A round of the sampler's thread.
  unfoldable pub sample_round : Snapshot → Sampler → Sampler
  sample_round w s = let s' = sample_once w s in record s' { rounds = (s'.rounds + 1) % 2 ^ 64 }

-- `running` of the report_samples.
unfoldable pub running_of : Counts → ℕ
running_of [] = 0
running_of ((key, n) ∷ rest) = (n + running_of rest) % 2 ^ 64

unfoldable pub insert_count : ℕ × ℕ → Counts → Counts
insert_count entry [] = entry ∷ []
insert_count entry (first ∷ rest) =
    let later = insert_count entry rest in
    if leb first.1 entry.1 then entry ∷ first ∷ rest else first ∷ later

unfoldable pub by_count : Counts → Counts
by_count [] = []
by_count (entry ∷ rest) = insert_count entry (by_count rest)

-- The rows of a table: those with the largest counters.
unfoldable pub report_table : Counts → ℕ → Counts
report_table m limit = take limit (by_count m)

-- What `report_samples` prints: the rounds, both counters, and the two tables.
pub record SampleReport : Type 0 where
  pub rounds : ℕ
  pub running : ℕ
  pub parked : ℕ
  pub executing : Counts
  pub on_stacks : Counts

unfoldable pub report_samples : Sampler → SampleReport
report_samples s = record {
  rounds = s.rounds;
  running = running_of s.executing;
  parked = s.parked;
  executing = report_table s.executing 6;
  on_stacks = report_table s.on_stacks 40;
}
