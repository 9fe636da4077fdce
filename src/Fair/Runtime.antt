-- ===== src/Fair/Runtime.antt =====
-- kernel/core/sched/sched_fair.c: the time that the running entity has used, and `min_vruntime`.
use kernal.Prelude.{
  ℕ, ◌+◌, ◌-◌, ◌%◌, ◌^◌, ◌<◌, ◌≡◌, Bool, ◌||◌, Option, none, some, ◌==◌, leb, if◌then◌else◌,
}
use kernal.Buddy.{write}
use kernal.Task.Fields.{Pointer, LoadWeight, SchedEntity}
use kernal.Fair.Load.{ScaleOps, calc_delta_fair, ◌>>=◌}
use kernal.Fair.Timeline.{CfsRq}

-- `max_vruntime` and `min_vruntime`, which no file defines: the later and the earlier of two times.
-- Times that are within half of the range of each other do not wrap.
pub record VruntimeOps : Type 0 where
  pub max_vruntime : ℕ → ℕ → ℕ
  pub min_vruntime : ℕ → ℕ → ℕ
  pub max-later :
      (a b : ℕ) → a < 2 ^ 63 → b < 2 ^ 63 → max_vruntime a b ≡ (if leb a b then b else a)
  pub min-earlier :
      (a b : ℕ) → a < 2 ^ 63 → b < 2 ^ 63 → min_vruntime a b ≡ (if leb a b then a else b)

abbrev pub set_entity : ℕ → SchedEntity → CfsRq → CfsRq
set_entity se e c = record c { entity = write c.entity se e }

-- The first `if` of `update_min_vruntime`: whether `curr` stays, and its time.
abbrev pub running : CfsRq → Pointer → Option ℕ
running c none = none
running c (some se) = if (c.entity se).on_rq then some (c.entity se).vruntime else none

-- What `update_curr` writes to the entity and the queue, for a weighted time `fair`.
unfoldable pub charge : ℕ → ℕ → ℕ → ℕ → LoadWeight → CfsRq → CfsRq
charge now delta se fair lw c = record c {
  exec_clock = (c.exec_clock + delta) % 2 ^ 64;
  entity = write c.entity se (record (c.entity se) {
    exec_start = now;
    sum_exec_runtime = ((c.entity se).sum_exec_runtime + delta) % 2 ^ 64;
    vruntime = ((c.entity se).vruntime + fair) % 2 ^ 64;
    load = lw;
  });
}

module _ (V : VruntimeOps) where
  open V use {max_vruntime, min_vruntime}

  -- The time that `update_min_vruntime` compares `min_vruntime` with.
  unfoldable pub next_vruntime : ℕ → Option ℕ → Option ℕ → ℕ
  next_vruntime now none none = now
  next_vruntime now (some v) none = v
  next_vruntime now none (some w) = w
  next_vruntime now (some v) (some w) = min_vruntime v w

  abbrev pub vruntime_at : CfsRq → Pointer → Option ℕ
  vruntime_at c none = none
  vruntime_at c (some se) = some (c.entity se).vruntime

  unfoldable pub update_min_vruntime : CfsRq → CfsRq
  unfolding next_vruntime
  update_min_vruntime c = record c {
    min_vruntime =
        max_vruntime c.min_vruntime
          (next_vruntime c.min_vruntime (running c c.curr) (vruntime_at c c.rb_leftmost));
  }

  -- `(s64)delta_exec <= 0`, of an s64 of 32 bits.
  abbrev pub not_positive : ℕ → Bool
  not_positive delta = delta % 2 ^ 32 == 0 || leb (2 ^ 31) (delta % 2 ^ 32)

  module _ (S : ScaleOps) where
    -- The account of `delta` for the running entity `se`.
    unfoldable pub account : ℕ → ℕ → ℕ → CfsRq → Option CfsRq
    account now delta se c = do
      (fair, lw) ← calc_delta_fair S delta (c.entity se).load
      some (update_min_vruntime (charge now delta se fair lw c))

    unfoldable pub update_with : ℕ → Pointer → CfsRq → Option CfsRq
    unfolding account
    update_with now none c = some c
    update_with now (some se) c =
        let delta = (now + 2 ^ 64 - (c.entity se).exec_start) % 2 ^ 64 in
        let rest = account now delta se c in if not_positive delta then some c else rest

    -- `now` is what `sched_clock_cpu` answers.
    unfoldable pub update_curr : ℕ → CfsRq → Option CfsRq
    unfolding update_with
    update_curr now c = update_with now c.curr c
