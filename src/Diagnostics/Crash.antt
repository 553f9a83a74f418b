-- ===== src/Diagnostics/Crash.antt =====
-- `on_exception`: which exceptions are reported, and what its scan of the stack finds.
use hybrid_heaven_recomp.Prelude.{
  ℕ, zero, suc, ◌+◌, Bool, true, false, ◌||◌, ◌&&◌, Option, none, some, List, [], ◌∷◌, ◌==◌, ltb,
  leb, if◌then◌else◌,
}

pub data ExceptionCode : Type 0 where
  access_violation stack_overflow illegal_instruction int_divide_by_zero : ExceptionCode
  priv_instruction in_page_error datatype_misalignment other_exception : ExceptionCode

-- Whether there is a report of it; the exception goes on in any case.
unfoldable pub is_reported : ExceptionCode → Bool
is_reported access_violation = true
is_reported stack_overflow = true
is_reported illegal_instruction = true
is_reported int_divide_by_zero = true
is_reported priv_instruction = true
is_reported in_page_error = true
is_reported datatype_misalignment = false
is_reported other_exception = false

pub data Access : Type 0 where
  reading writing executing : Access

-- How memory was accessed and where, from the exception's parameters, where it has two.
unfoldable pub access : ExceptionCode → List ℕ → Option (Access × ℕ)
access access_violation (how ∷ where_to ∷ rest) =
    some (if how == 0 then reading else if how == 1 then writing else executing, where_to)
access code parameters = none

-- The scan: `slot` is the address of the word that is read, `shown` what has been shown, and `owned`
-- whether a loaded module has an address.
module _ (stack : ℕ → ℕ) (end : ℕ) (owned : ℕ → Bool) where
  unfoldable pub scan_stack : ℕ → ℕ → ℕ → List ℕ
  scan_stack zero slot shown = []
  scan_stack (suc words) slot shown =
      let next = scan_stack words (slot + 8) shown in
      let after = scan_stack words (slot + 8) (shown + 1) in
      if leb 12 shown || ltb end (slot + 8)
      then []
      else if leb 0x1_0000 (stack slot) && owned (stack slot)
      then stack slot ∷ after
      else next

  -- The addresses that are shown, `rsp` being readable.
  unfoldable pub return_addresses : ℕ → List ℕ
  return_addresses rsp = scan_stack 512 rsp 0
