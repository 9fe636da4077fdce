-- ===== src/Interrupt/Count.antt =====
-- src/kernel/main.c: what interrupts do to the two counts of jiffies.
use kernal.Prelude.{
  ℕ, suc, ◌+◌, ◌%◌, ◌^◌, ◌<◌, ◌≡◌, refl, sym, ap, subst, ◌∙◌, inl, inr, List, [], ◌∷◌, Bool-cases,
  if◌then◌else◌, arith,
}
use kernal.Prelude.Int.{ℤ}
use kernal.Task.Life.{get_jiffies_64}
use kernal.Interrupt.{
  CpuState, Handlers, is_number, update_jiffies, timer_interrupt, keyboard_interrupt,
  handle_interrupt,
}

-- The two counts are as they were.
abbrev pub SameCounts : {S : Type 0} → CpuState S → CpuState S → Type 0
SameCounts m m' = (m'.ticks ≡ m.ticks) × (m'.kernel.jiffies ≡ m.kernel.jiffies)

-- The functions outside ask for no time: they neither call `get_jiffies_64` nor `update_jiffies`.
pub record KeepsCounts {S : Type 0} (O : Handlers S) : Type 0 where
  pub scheduler_tick-SameCounts : (m : CpuState S) → SameCounts m (O.scheduler_tick m)
  pub run_timer_softirq-SameCounts : (m : CpuState S) → SameCounts m (O.run_timer_softirq m)
  pub inb-SameCounts : (port : ℕ) (m : CpuState S) → SameCounts m (O.inb port m).1
  pub keyboard-SameCounts :
      (scancode : ℕ) (m : CpuState S) → SameCounts m (O.handle_keyboard_input scancode m)

-- The interrupts of the timer among those that came.
abbrev pub timers : List ℤ → ℕ
timers [] = 0
timers (irq ∷ irqs) = if is_number irq 0 then suc (timers irqs) else timers irqs

module _ {S : Type 0} (O : Handlers S) where
  -- Interrupts one after another, none within the handler of another.
  unfoldable pub interrupts : List ℤ → CpuState S → CpuState S
  unfolding handle_interrupt
  interrupts [] m = m
  interrupts (irq ∷ irqs) m = interrupts irqs (handle_interrupt O irq m)

module _ {S : Type 0} (O : Handlers S) (keeps : KeepsCounts O) where
  open keeps use {
    scheduler_tick-SameCounts, run_timer_softirq-SameCounts, inb-SameCounts, keyboard-SameCounts,
  }

  timer_interrupt-counts :
      (m : CpuState S)
      → ((timer_interrupt O m).ticks ≡ (m.ticks + 1) % 2 ^ 64)
        × ((timer_interrupt O m).kernel.jiffies ≡ m.kernel.jiffies)
  unfolding timer_interrupt update_jiffies
  timer_interrupt-counts m =
      let m1 = update_jiffies m in
      let (a, b) = scheduler_tick-SameCounts m1 in
      let (c, d) = run_timer_softirq-SameCounts (O.scheduler_tick m1) in (c ∙ a, d ∙ b)

  keyboard_interrupt-SameCounts : (m : CpuState S) → SameCounts m (keyboard_interrupt O m)
  unfolding keyboard_interrupt
  keyboard_interrupt-SameCounts m =
      let (a, b) = inb-SameCounts 0x60 m in
      let (c, d) = keyboard-SameCounts (O.inb 0x60 m).0 (O.inb 0x60 m).1 in (c ∙ a, d ∙ b)

  -- One interrupt of any number: a tick for that of the timer, and nothing for the others.
  handle_interrupt-ticks :
      (irq : ℤ) (m : CpuState S)
      → ((handle_interrupt O irq m).ticks
          ≡ (if is_number irq 0 then (m.ticks + 1) % 2 ^ 64 else m.ticks))
        × ((handle_interrupt O irq m).kernel.jiffies ≡ m.kernel.jiffies)
  unfolding handle_interrupt
  handle_interrupt-ticks irq m = elim (Bool-cases (is_number irq 0)) [
    | inl timer ↦ rw timer (timer_interrupt-counts _)
    | inr other ↦ elim (Bool-cases (is_number irq 1)) [
      | inl keyboard ↦ rw (other, keyboard) (keyboard_interrupt-SameCounts _)
      | inr unknown ↦ rw (other, unknown) (refl, refl)
    ]
  ]

  step_below :
      (irq : ℤ) (t : ℕ) → t < 2 ^ 64 → (if is_number irq 0 then (t + 1) % 2 ^ 64 else t) < 2 ^ 64
  step_below irq t lt = elim (Bool-cases (is_number irq 0)) [
    | inl timer ↦ rw timer (omega arith)
    | inr other ↦ rw other lt
  ]

  step_ticks :
      (irq : ℤ) (irqs : List ℤ) (t : ℕ)
      → ((if is_number irq 0 then (t + 1) % 2 ^ 64 else t) + timers irqs) % 2 ^ 64
        ≡ (t + timers (irq ∷ irqs)) % 2 ^ 64
  step_ticks irq irqs t = elim (Bool-cases (is_number irq 0)) [
    | inl timer ↦ rw timer (omega arith)
    | inr other ↦ rw other refl
  ]

  -- Where the functions outside ask for no time and the count of update_jiffies is below 2^64:
  -- after any interrupts, one after another, that count has grown by those of the timer among
  -- them, modulo 2^64, and get_jiffies_64 answers what it would have answered before them.
  pub interrupts-ticks :
      (irqs : List ℤ) (m : CpuState S)
      → m.ticks < 2 ^ 64
      → ((interrupts O irqs m).ticks ≡ (m.ticks + timers irqs) % 2 ^ 64)
        × ((get_jiffies_64 (interrupts O irqs m).kernel).0 ≡ (get_jiffies_64 m.kernel).0)
  unfolding interrupts get_jiffies_64
  interrupts-ticks [] m lt = (omega (arith, lt), refl)
  interrupts-ticks (irq ∷ irqs) m lt =
      let (a, b) = handle_interrupt-ticks irq m in
      let below = subst (λ t. t < 2 ^ 64) (sym a) (step_below irq m.ticks lt) in
      let (c, d) = interrupts-ticks irqs (handle_interrupt O irq m) below in
      (c ∙ ap (λ t. (t + timers irqs) % 2 ^ 64) a ∙ step_ticks irq irqs m.ticks, d ∙ b)
