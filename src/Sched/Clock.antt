-- ===== src/Sched/Clock.antt =====
-- kernel/core/sched/sched.c: `update_rq_clock`.
use kernal.Prelude.{ℕ, ◌+◌, ◌-◌, ◌%◌, ◌^◌, if◌then◌else◌}
use kernal.Prelude.Int.{ℤ, pos, pos_part, neg_part, ltb_ℤ, int_of}
use kernal.Sched.Rq.{Clocks, Rq}

-- What the clocks outside the sources answer: `sched_clock_cpu`, `irq_time_read` and
-- `steal_account_process_tick`.
pub record Reading : Type 0 where
  pub now : ℕ
  pub irq : ℕ
  pub steal : ℤ

-- A `u64` and the sum of it and an `s64`.
abbrev pub add64 : ℕ → ℤ → ℕ
add64 a d = (a + pos_part d + 2 ^ 64 - neg_part d) % 2 ^ 64

-- The difference of two `u64`, kept in an `s64` of 32 bits.
abbrev pub diff64 : ℕ → ℕ → ℤ
diff64 a b = int_of ((a + 2 ^ 64 - b) % 2 ^ 64)

-- The difference of two `s64`, which wraps to 32 bits.
unfoldable pub sub_s64 : ℤ → ℤ → ℤ
sub_s64 a b = int_of (pos_part a + neg_part b + 2 ^ 33 - (neg_part a + pos_part b))

abbrev pub at_most : ℤ → ℤ → ℤ
at_most a b = if ltb_ℤ b a then b else a

unfoldable pub update_rq_clock_task : Reading → ℤ → Clocks → Clocks
unfolding sub_s64
update_rq_clock_task r delta c =
    let irq_delta = at_most (diff64 r.irq c.prev_irq_time) delta in
    let left = sub_s64 delta irq_delta in
    let steal = at_most r.steal left in
    record c {
      prev_irq_time = add64 c.prev_irq_time irq_delta;
      prev_steal_time_rq = add64 c.prev_steal_time_rq steal;
      clock_task = add64 c.clock_task (sub_s64 left steal);
    }

unfoldable pub update_clocks : Reading → Clocks → Clocks
update_clocks r c =
    let delta = diff64 r.now c.clock in
    if ltb_ℤ delta (pos 0)
    then c
    else update_rq_clock_task r delta (record c { clock = add64 c.clock delta })

unfoldable pub update_rq_clock : Reading → Rq → Rq
unfolding update_clocks
update_rq_clock r q = record q { times = update_clocks r q.times }
