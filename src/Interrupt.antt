-- ===== src/Interrupt.antt =====
-- src/kernel/main.c: interrupts, exceptions and `update_jiffies`.
pub mod Count
pub mod Panics
mod Tests
use kernal.Prelude.{ℕ, ◌+◌, ◌%◌, ◌^◌, List, [], ◌∷◌, ◌++◌, ◌==◌, Bool, true, false, if◌then◌else◌}
use kernal.Prelude.Int.{ℤ, pos, negsuc}
use kernal.Task.Life.{Kernel}

-- The lines that are printed.
pub data Line : Type 0 where
  interrupt_line : ℤ → Line
  unknown_interrupt : ℤ → Line
  exception_line : ℤ → ℕ → Line
  division_by_zero : Line
  invalid_instruction : Line
  protection_fault : Line
  unknown_exception : ℤ → Line
  page_fault_line : ℕ → ℕ → Line

-- `kernel` has the static variable of `get_jiffies_64`; `ticks` is that of `update_jiffies`.
pub record CpuState (S : Type 0) : Type 0 where
  pub kernel : Kernel
  pub ticks : ℕ
  pub printed : List Line
  pub rest : S

-- How a handler ends: it returns, or it is in `panic`, in the state at the call.
pub data Ending (S : Type 0) : Type 0 where
  returns : CpuState S → Ending S
  panics : CpuState S → Ending S

-- The functions outside the sources. `read_cr2` is the register that the assembly reads.
pub record Handlers (S : Type 0) : Type 0 where
  pub scheduler_tick : CpuState S → CpuState S
  pub run_timer_softirq : CpuState S → CpuState S
  pub inb : ℕ → CpuState S → ℕ × CpuState S
  pub handle_keyboard_input : ℕ → CpuState S → CpuState S
  pub read_cr2 : CpuState S → ℕ
  pub do_page_fault : ℕ → ℕ → CpuState S → Ending S

abbrev pub is_number : ℤ → ℕ → Bool
is_number (pos n) k = n == k
is_number (negsuc n) k = false

module _ {S : Type 0} where
  abbrev pub printk : Line → CpuState S → CpuState S
  printk l m = record m { printed = m.printed ++ l ∷ [] }

  unfoldable pub update_jiffies : CpuState S → CpuState S
  update_jiffies m = record m { ticks = (m.ticks + 1) % 2 ^ 64 }

  -- The test behind the `switch`.
  abbrev pub unless_handled : ℤ → Ending S → Ending S
  unless_handled exception (panics m) = panics m
  unless_handled exception (returns m) = if is_number exception 14 then returns m else panics m

module _ {S : Type 0} (O : Handlers S) where
  open O use {
    scheduler_tick, run_timer_softirq, inb, handle_keyboard_input, read_cr2, do_page_fault,
  }

  unfoldable pub timer_interrupt : CpuState S → CpuState S
  unfolding update_jiffies
  timer_interrupt m = run_timer_softirq (scheduler_tick (update_jiffies m))

  unfoldable pub keyboard_interrupt : CpuState S → CpuState S
  keyboard_interrupt m = let (scancode, m1) = inb 0x60 m in handle_keyboard_input scancode m1

  unfoldable pub handle_interrupt : ℤ → CpuState S → CpuState S
  unfolding timer_interrupt keyboard_interrupt
  handle_interrupt irq m =
      let m1 = printk (interrupt_line irq) m in
      if is_number irq 0
      then timer_interrupt m1
      else if is_number irq 1
      then keyboard_interrupt m1
      else printk (unknown_interrupt irq) m1

  unfoldable pub handle_page_fault : ℕ → CpuState S → Ending S
  handle_page_fault error_code m =
      let address = read_cr2 m in
      do_page_fault address error_code (printk (page_fault_line address error_code) m)

  -- The `switch` of `handle_exception`.
  unfoldable pub handle_case : ℤ → ℕ → CpuState S → Ending S
  unfolding handle_page_fault
  handle_case exception error_code m =
      if is_number exception 0
      then returns (printk division_by_zero m)
      else if is_number exception 6
      then returns (printk invalid_instruction m)
      else if is_number exception 13
      then returns (printk protection_fault m)
      else if is_number exception 14
      then handle_page_fault error_code m
      else returns (printk (unknown_exception exception) m)

  unfoldable pub handle_exception : ℤ → ℕ → CpuState S → Ending S
  unfolding handle_case
  handle_exception exception error_code m =
      unless_handled exception
        (handle_case exception error_code (printk (exception_line exception error_code) m))
