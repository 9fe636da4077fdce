-- ===== src/Fair/Wake.antt =====
-- kernel/core/sched/sched_fair.c: whether a task that wakes up takes the CPU, and `yield_task_fair`.
use kernal.Prelude.{
  ℕ, ◌≡◌, Bool, true, false, not, ◌&&◌, ◌||◌, Option, some, ◌==◌, leb, if◌then◌else◌,
}
use kernal.Prelude.Int.{ℤ, pos, negsuc}
use kernal.Sched.Rq.{Clocks}
use kernal.Sched.Clock.{Reading, update_clocks}
use kernal.Task.Fields.{Pointer}
use kernal.Fair.Load.{ScaleOps, ◌>>=◌}
use kernal.Fair.Timeline.{CfsRq}
use kernal.Fair.Runtime.{VruntimeOps, update_curr}
use kernal.Fair.Pick.{PickOps}
use kernal.Fair.Queue.{has}
use kernal.Fair.Tasks.{Groups, GroupOps, set_cfs}

-- What is read of a task: its address, that of its entity, and its policy.
pub record Runner : Type 0 where
  pub task : ℕ
  pub se : ℕ
  pub policy : ℕ

-- The queues, and whether the current task is told to give up the CPU.
pub record Waking : Type 0 where
  pub groups : Groups
  pub need_resched : Bool

-- What no file defines: the constants, the features, the macros on entities, and `resched_curr`, which
-- tells the current task to give up the CPU. `find_matching_se` answers the two that it moves up to.
pub record WakeOps : Type 0 where
  pub sched_normal : ℕ
  pub sched_idle : ℕ
  pub sched_batch : ℕ
  pub wf_fork : ℕ
  pub sched_nr_latency : ℕ
  pub next_buddy_feature : Bool
  pub wakeup_preemption : Bool
  pub last_buddy_feature : Bool
  pub task_cfs_rq : ℕ → ℕ
  pub entity_is_task : ℕ → Bool
  pub find_matching_se : ℕ → ℕ → ℕ × Pointer
  pub set_last_buddy : ℕ → (ℕ → CfsRq) → ℕ → CfsRq
  pub set_skip_buddy : ℕ → (ℕ → CfsRq) → ℕ → CfsRq
  pub resched_curr : Waking → Waking
  pub rq_clock_skip_update : Bool → Clocks → Clocks
  pub resched-asks : (s : Waking) → (resched_curr s).need_resched ≡ true

abbrev pub is_one : ℤ → Bool
is_one (pos n) = n == 1
is_one (negsuc n) = false

module _ (G : GroupOps) (W : WakeOps) where
  open G use {cfs_rq_of, throttled_hierarchy, set_next_buddy}
  open W use {
    sched_normal, sched_idle, sched_batch, wf_fork, sched_nr_latency, next_buddy_feature,
    wakeup_preemption, last_buddy_feature, task_cfs_rq, entity_is_task, find_matching_se,
    set_last_buddy, set_skip_buddy, resched_curr, rq_clock_skip_update,
  }

  abbrev pub mark_next : ℕ → Waking → Waking
  mark_next se s = record s { groups = record s.groups { cfs = set_next_buddy se s.groups.cfs } }

  abbrev pub set_last : ℕ → Waking → Waking
  set_last se s = record s { groups = record s.groups { cfs = set_last_buddy se s.groups.cfs } }

  -- `scale` and `next_buddy_marked`.
  abbrev pub crowded : Runner → Waking → Bool
  crowded curr s = leb sched_nr_latency (s.groups.cfs (task_cfs_rq curr.task)).nr_running

  abbrev pub next_marked : Runner → ℕ → Waking → Bool
  next_marked curr flags s = next_buddy_feature && crowded curr s && not (has flags wf_fork)

  abbrev pub set_skip : ℕ → Groups → Groups
  set_skip se g = record g { cfs = set_skip_buddy se g.cfs }

  -- The lines from the label `preempt` on; `is_idle` is `curr == rq->idle`.
  unfoldable pub preempt : Bool → Bool → ℕ → Waking → Waking
  preempt scale is_idle se s =
      let s1 = resched_curr s in
      if not ((s1.groups.cfs (cfs_rq_of se)).entity se).on_rq || is_idle
      then s1
      else if last_buddy_feature && scale && entity_is_task se
      then set_last se s1
      else s1

  module _ (P : PickOps) (V : VruntimeOps) (S : ScaleOps) (now : ℕ) where
    open P use {wakeup_preempt_entity, clear_buddies}

    -- Behind `find_matching_se`; none is a fault of `update_curr` or BUG_ON.
    unfoldable pub by_key : Bool → Bool → Bool → ℕ → Pointer → Waking → Option Waking
    unfolding preempt
    by_key marked scale is_idle se pse s =
        let q = cfs_rq_of se in
        update_curr V S now (s.groups.cfs q) >>= λ c.
        let s1 = record s { groups = set_cfs q c s.groups } in
        pse >>= λ x.
        if is_one (wakeup_preempt_entity c se (some x))
        then some (preempt scale is_idle se (if marked then s1 else mark_next x s1))
        else some s1

    -- Behind the marking of the next buddy.
    unfoldable pub by_policy : Runner → Runner → Bool → Bool → Bool → Waking → Option Waking
    unfolding by_key preempt
    by_policy curr p marked scale is_idle s =
        let (se, pse) = find_matching_se curr.se p.se in
        let rest = by_key marked scale is_idle se pse s in
        if s.need_resched
        then some s
        else if (curr.policy == sched_idle) && not (p.policy == sched_idle)
        then some (preempt scale is_idle curr.se s)
        else if not (p.policy == sched_normal) || not wakeup_preemption
        then some s
        else rest

    -- `idle` is rq->idle.
    unfoldable pub check_preempt_wakeup : Runner → Runner → ℕ → ℕ → Waking → Option Waking
    unfolding by_policy
    check_preempt_wakeup curr p idle wake_flags s =
        let scale = crowded curr s in
        let marked = next_marked curr wake_flags s in
        if curr.se == p.se
        then some s
        else if throttled_hierarchy (cfs_rq_of p.se)
        then some s
        else by_policy curr p marked scale (curr.task == idle)
            (if marked then mark_next p.se s else s)

    -- The queues and the clocks of the run queue; `r` is what the clocks answer to `update_rq_clock`.
    unfoldable pub yield_task_fair : Runner → Reading → Groups × Clocks → Option (Groups × Clocks)
    yield_task_fair curr r (g, times) =
        let q = task_cfs_rq curr.task in
        let g1 = set_cfs q (clear_buddies (some curr.se) (g.cfs q)) g in
        let charged = update_curr V S now (g1.cfs q) >>= λ c.
        some
          (set_skip curr.se (set_cfs q c g1), rq_clock_skip_update true (update_clocks r times)) in
        if g.nr_running == 1
        then some (g, times)
        else if curr.policy == sched_batch
        then some (set_skip curr.se g1, times)
        else charged
