-- ===== src/Wire/Memory.antt =====
-- RDRAM as the recompiled code reaches it, through the macros of the third-party recomp.h: bytes at
-- an address, by MEM_B and MEM_BU. What the port relies on is that a store is seen by a later load
-- of the same address and by no other.
use hybrid_heaven_recomp.Prelude.{ℕ, ◌%◌, ◌<◌, ◌≡◌, ◌==◌, if◌then◌else◌, arith, update}

pub record Memory : Type 1 where
  pub Mem : Type 0
  pub load : Mem → ℕ → ℕ
  pub store : Mem → ℕ → ℕ → Mem
  pub load-lt : (m : Mem) (a : ℕ) → load m a < 256
  pub load-store :
      (m : Mem) (a v b : ℕ) → load (store m a v) b ≡ (if a == b then v % 256 else load m b)

pub function_load-lt : (m : ℕ → ℕ) (a : ℕ) → m a % 256 < 256
function_load-lt m a = omega arith

pub function_load-store :
    (m : ℕ → ℕ) (a v b : ℕ) → update m a v b % 256 ≡ (if a == b then v % 256 else m b % 256)
function_load-store m a v b = ground arith

-- Memory as a function of the address, to run the code on.
abbrev pub function_memory : Memory
function_memory = record {
  Mem = ℕ → ℕ;
  load = λ m a. m a % 256;
  store = λ m a v. update m a v;
  load-store = function_load-store;
  load-lt = function_load-lt;
}
