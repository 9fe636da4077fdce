-- ===== src/Interrupt/Tests.antt =====
-- src/kernel/main.c: interrupts and exceptions on a machine whose handlers keep the last scancode.
use kernal.Prelude.{ℕ, ◌≡◌, refl, [], ◌∷◌, arith}
use kernal.Prelude.Int.{pos}
use kernal.Task.Life.{get_jiffies_64}
use kernal.Task.Samples.{one_task}
use kernal.Interrupt.{
  CpuState, interrupt_line, exception_line, protection_fault, returns, panics, Handlers,
  handle_exception, handle_case, handle_interrupt, keyboard_interrupt,
}
use kernal.Interrupt.Count.{KeepsCounts, interrupts, interrupts-ticks}

abbrev handlers : Handlers ℕ
handlers = record {
  scheduler_tick = λ m. m;
  run_timer_softirq = λ m. m;
  inb = λ port m. (30, m);
  handle_keyboard_input = λ scancode m. record m { rest = scancode };
  read_cr2 = λ m. 4096;
  do_page_fault = λ address error_code m. returns (record m { rest = address });
}

handlers-KeepsCounts : KeepsCounts handlers
handlers-KeepsCounts = record {
  scheduler_tick-SameCounts = λ m. (refl, refl);
  run_timer_softirq-SameCounts = λ m. (refl, refl);
  inb-SameCounts = λ port m. (refl, refl);
  keyboard-SameCounts = λ scancode m. (refl, refl);
}

abbrev started : CpuState ℕ
started = record { kernel = one_task; ticks = 7; printed = []; rest = 0 }

key_pressed :
    handle_interrupt handlers (pos 1) started
    ≡ record started { printed = interrupt_line (pos 1) ∷ []; rest = 30 }
unfolding handle_interrupt keyboard_interrupt
key_pressed = refl

interrupts-ticks_example :
    ((interrupts handlers (pos 0 ∷ pos 1 ∷ pos 0 ∷ []) started).ticks ≡ 9)
    × ((get_jiffies_64 (interrupts handlers (pos 0 ∷ pos 1 ∷ pos 0 ∷ []) started).kernel).0 ≡ 5)
unfolding get_jiffies_64
interrupts-ticks_example =
    interrupts-ticks handlers handlers-KeepsCounts (pos 0 ∷ pos 1 ∷ pos 0 ∷ []) started
      (omega arith)

-- A protection fault that comes with the error code 2.
protection :
    handle_exception handlers (pos 13) 2 started
    ≡ panics (record started { printed = exception_line (pos 13) 2 ∷ protection_fault ∷ [] })
unfolding handle_exception handle_case
protection = refl
