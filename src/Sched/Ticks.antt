-- ===== src/Sched/Ticks.antt =====
-- kernel/core/sched/sched.c: how far `update_rq_clock` moves the clocks of a run queue.
use kernal.Prelude.{
  ℕ, ◌+◌, ◌-◌, ◌%◌, ◌^◌, ◌≤◌, ◌<◌, ◌≡◌, ◌⊎◌, inl, inr, refl, ◌∙◌, true, false, ltb, Bool-cases,
  arith,
}
use kernal.Prelude.Int.{ℤ, pos, pos_part, neg_part, ◌-ℤ◌, ◌≤ℤ◌, ltb_ℤ, -ℤ_parts}
use kernal.Sched.Rq.{Clocks, Rq}
use kernal.Sched.Clock.{
  Reading, add64, diff64, sub_s64, at_most, update_rq_clock_task, update_clocks, update_rq_clock,
}

-- Three parts of a time, counted_ticks into three clocks, are that time.
add64_three :
    (a b c : ℕ) (x y delta : ℤ)
    → neg_part x ≤ 2 ^ 32
    → neg_part y ≤ 2 ^ 32
    → neg_part delta ≡ 0
    → neg_part ((delta -ℤ x) -ℤ y) ≡ 0
    → (add64 a x + add64 b y + add64 c ((delta -ℤ x) -ℤ y)) % 2 ^ 64
      ≡ (a + b + c + pos_part delta) % 2 ^ 64
add64_three a b c x y delta p q n r = omega (arith, -ℤ_parts delta x, -ℤ_parts (delta -ℤ x) y)

at_most-le : (a b : ℤ) → at_most a b ≤ℤ b
at_most-le a b = ground arith

minus_nonneg : (a b : ℤ) → a ≤ℤ b → neg_part (b -ℤ a) ≡ 0
unfolding ◌-ℤ◌
minus_nonneg a b l = ground arith

at_most_nonneg : (a b : ℤ) → neg_part a ≡ 0 → neg_part b ≡ 0 → neg_part (at_most a b) ≡ 0
at_most_nonneg a b m n = ground arith

-- No wrap of a difference of times that are in order.
sub_s64_lem :
    (a b : ℤ)
    → neg_part a ≡ 0
    → neg_part b ≡ 0
    → b ≤ℤ a
    → pos_part a < 2 ^ 31
    → sub_s64 a b ≡ a -ℤ b
unfolding sub_s64 ◌-ℤ◌
sub_s64_lem a b m n l s = ground arith

minus_small : (a b : ℤ) → neg_part a ≡ 0 → neg_part b ≡ 0 → pos_part (a -ℤ b) ≤ pos_part a
unfolding ◌-ℤ◌
minus_small a b m n = ground arith

-- The time that the three clocks of a run queue have counted_ticks.
abbrev pub accounted : Clocks → ℕ
accounted c = c.prev_irq_time + c.prev_steal_time_rq + c.clock_task

clock_task-accounted :
    (r : Reading) (delta : ℤ) (c : Clocks)
    → neg_part delta ≡ 0
    → pos_part delta < 2 ^ 31
    → neg_part (diff64 r.irq c.prev_irq_time) ≡ 0
    → neg_part r.steal ≡ 0
    → accounted (update_rq_clock_task r delta c) % 2 ^ 64 ≡ (accounted c + pos_part delta) % 2 ^ 64
unfolding update_rq_clock_task
clock_task-accounted r delta c n small q s =
    let irq = at_most (diff64 r.irq c.prev_irq_time) delta in
    let irq_pos = at_most_nonneg (diff64 r.irq c.prev_irq_time) delta q n in
    let irq_le = at_most-le (diff64 r.irq c.prev_irq_time) delta in
    let left = delta -ℤ irq in
    let left_pos = minus_nonneg irq delta irq_le in
    let steal = at_most r.steal left in
    let steal_pos = at_most_nonneg r.steal left s left_pos in
    let shrinks = minus_small delta irq n irq_pos in
    rw
      (
        sub_s64_lem delta irq n irq_pos irq_le small,
        sub_s64_lem left steal left_pos steal_pos (at_most-le r.steal left) (omega arith),
      )
      (add64_three c.prev_irq_time c.prev_steal_time_rq c.clock_task irq steal delta (omega arith)
        (omega arith) n (minus_nonneg steal left (at_most-le r.steal left)))

-- How far the clock goes: what has passed, in 32 bits, or nothing where that is negative.
abbrev pub Advanced : Reading → Clocks → Clocks → Type 0
Advanced r c c' =
    let passed = (r.now - c.clock) % 2 ^ 32 in
    ((passed < 2 ^ 31)
      × (c'.clock ≡ c.clock + passed)
      × (accounted c' % 2 ^ 64 ≡ (accounted c + passed) % 2 ^ 64))
    ⊎ ((2 ^ 31 ≤ passed) × (c' ≡ c))

diff64_passed :
    (now clock : ℕ)
    → clock ≤ now
    → now < 2 ^ 64
    → (((now - clock) % 2 ^ 32 < 2 ^ 31) × (diff64 now clock ≡ pos ((now - clock) % 2 ^ 32)))
      ⊎ ((2 ^ 31 ≤ (now - clock) % 2 ^ 32) × (ltb_ℤ (diff64 now clock) (pos 0) ≡ true))
diff64_passed now clock l h =
    let e : (now + 2 ^ 64 - clock) % 2 ^ 64 % 2 ^ 32 ≡ (now - clock) % 2 ^ 32 = omega arith in
    elim (Bool-cases (ltb ((now - clock) % 2 ^ 32) (2 ^ 31))) [
      | inl b ↦ inl (ground arith, rw (e, b))
      | inr b ↦ inr (ground arith, ground (arith, e))
    ]

clock_task-clock :
    (r : Reading) (delta : ℤ) (c : Clocks) → (update_rq_clock_task r delta c).clock ≡ c.clock
unfolding update_rq_clock_task
clock_task-clock r delta c = refl

counted_ticks :
    (r : Reading) (c : Clocks)
    → c.clock ≤ r.now
    → r.now < 2 ^ 64
    → neg_part (diff64 r.irq c.prev_irq_time) ≡ 0
    → neg_part r.steal ≡ 0
    → (r.now - c.clock) % 2 ^ 32 < 2 ^ 31
    → (p : ℤ) → p ≡ pos ((r.now - c.clock) % 2 ^ 32)
    → Advanced r c (update_rq_clock_task r p (record c { clock = add64 c.clock p }))
counted_ticks r c l h q s b p e =
    let c1 = record c { clock = add64 c.clock p } in
    inl (
      b,
      clock_task-clock r p c1 ∙ rw e (omega arith),
      clock_task-accounted r p c1 (rw e refl) (rw e b) q s ∙ rw e refl,
    )

-- For a time that is not before the clock of the run queue, below 2^64, an interrupt time whose
-- difference to that of the run queue is not negative as an s64, and a stolen time that is not
-- negative: with what has passed taken modulo 2^32, update_rq_clock adds it to the clock and,
-- shared out, to the interrupt time, the stolen time and the clock of the tasks together, modulo
-- 2^64, where it is below 2^31, and otherwise changes nothing.
pub update_rq_clock-Advanced :
    (r : Reading) (q : Rq)
    → q.times.clock ≤ r.now
    → r.now < 2 ^ 64
    → neg_part (diff64 r.irq q.times.prev_irq_time) ≡ 0
    → neg_part r.steal ≡ 0
    → Advanced r q.times (update_rq_clock r q).times
unfolding update_rq_clock update_clocks
update_rq_clock-Advanced r q l h i s = elim (diff64_passed r.now q.times.clock l h) [
  | inl (b, e) ↦
      let on : ltb_ℤ (diff64 r.now q.times.clock) (pos 0) ≡ false = rw e (ground arith) in
      rw on (counted_ticks r q.times l h i s b (diff64 r.now q.times.clock) e)
  | inr (b, e) ↦ rw e (inr (b, refl))
]
