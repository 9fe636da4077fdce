-- ===== src/Interrupt/Panics.antt =====
-- src/kernel/main.c: how an exception ends.
use native.Mathlib.Decide.{ℕ_discrete}
use kernal.Prelude.{ℕ, ◌≡◌, ◌≢◌, refl, sym, subst, ◌⊎◌, inr, arith}
use kernal.Prelude.Int.{ℤ, pos, negsuc}
use kernal.Interrupt.{
  Line, returns, exception_line, division_by_zero, invalid_instruction, protection_fault,
  unknown_exception, page_fault_line, CpuState, Ending, panics, Handlers, printk, handle_page_fault,
  handle_case, handle_exception, unless_handled,
}

-- The numbers that `handle_exception` knows.
abbrev pub IsKnown : ℤ → Type 0
IsKnown e = (e ≡ pos 0) ⊎ ((e ≡ pos 6) ⊎ ((e ≡ pos 13) ⊎ (e ≡ pos 14)))

-- The line for an exception that is no page fault.
abbrev pub Reports : ℤ → Line → Type 0
Reports e l =
    ((e ≡ pos 0) × (l ≡ division_by_zero))
    ⊎ (((e ≡ pos 6) × (l ≡ invalid_instruction))
        ⊎ (((e ≡ pos 13) × (l ≡ protection_fault)) ⊎ (¬ IsKnown e × (l ≡ unknown_exception e))))

-- The kernel is in `panic` after two lines, or the page fault has its handler.
abbrev pub Ended : {S : Type 0} → Handlers S → ℤ → ℕ → CpuState S → Ending S → Type 0
Ended {S} O e code m r =
    ((e ≢ pos 14)
      × ((l : Line) × Reports e l × (r ≡ panics (printk l (printk (exception_line e code) m)))))
    ⊎ ((e ≡ pos 14)
        × (r
            ≡ O.do_page_fault (O.read_cr2 (printk (exception_line e code) m)) code (
                printk (page_fault_line (O.read_cr2 (printk (exception_line e code) m)) code)
                  (printk (exception_line e code) m))))

module _ {S : Type 0} (O : Handlers S) (code : ℕ) (m : CpuState S) where
  page_fault-same : (r : Ending S) → unless_handled (pos 14) r ≡ r
  page_fault-same (returns m) = refl
  page_fault-same (panics m) = refl

  pos-Ended : (n : ℕ) → n ≢ 14 → Ended O (pos n) code m (handle_exception O (pos n) code m)
  unfolding handle_exception handle_case handle_page_fault
  pos-Ended n = ground arith

  page_fault-Ended : Ended O (pos 14) code m (handle_exception O (pos 14) code m)
  unfolding handle_exception handle_case handle_page_fault
  page_fault-Ended = inr (refl, page_fault-same _)

  neg-Ended : (n : ℕ) → Ended O (negsuc n) code m (handle_exception O (negsuc n) code m)
  unfolding handle_exception handle_case
  neg-Ended n = ground arith

  -- For an exception of any number: but for 14, the page fault, the kernel panics after two lines,
  -- the number with the error code and the name of the exception, which is unknown other than for
  -- 0, 6 and 13, and nothing else has changed. For 14 it ends as do_page_fault does, on the address
  -- in cr2 and the error code, after two lines.
  pub handle_exception-Ended : (e : ℤ) → Ended O e code m (handle_exception O e code m)
  handle_exception-Ended (negsuc n) = neg-Ended n
  handle_exception-Ended (pos n) = elim (ℕ_discrete n 14) [
    | yes e ↦
        subst (λ k. Ended O (pos k) code m (handle_exception O (pos k) code m)) (sym e)
          page_fault-Ended
    | no other ↦ pos-Ended n other
  ]
