-- ===== src/Fair/WakeTests.antt =====
-- kernel/core/sched/sched_fair.c: a batch task wakes up while a task of SCHED_IDLE runs.
use kernal.Prelude.{ℕ, ◌+◌, ◌-◌, ◌≡◌, refl, true, false, some, arith}
use kernal.Fair.Samples.{scale, vruntimes, choice, queue}
use kernal.Fair.Tasks.{GroupOps}
use kernal.Fair.Wake.{Runner, Waking, WakeOps, check_preempt_wakeup}
use kernal.Fair.Asked.{Asks, check_preempt_wakeup-Asks}

plus_minus : (n : ℕ) → n + 1 - 1 ≡ n
plus_minus n = omega arith

abbrev one_group : GroupOps
one_group = record {
  cfs_rq_of = λ se. 0;
  cfs_rq_throttled = λ q. false;
  throttled_hierarchy = λ q. false;
  update_load_avg = λ se c. c;
  update_cfs_shares = λ c. c;
  set_next_buddy = λ se f. f;
  add_nr_running = λ n. n + 1;
  sub_nr_running = λ n. n - 1;
  load-number = λ se c. refl;
  shares-number = λ c. refl;
  buddy-number = λ se f q. refl;
  sub-add = plus_minus;
}

abbrev wake_ops : WakeOps
wake_ops = record {
  sched_normal = 0;
  sched_idle = 5;
  sched_batch = 3;
  wf_fork = 2;
  sched_nr_latency = 8;
  next_buddy_feature = true;
  wakeup_preemption = true;
  last_buddy_feature = true;
  task_cfs_rq = λ t. 0;
  entity_is_task = λ se. true;
  find_matching_se = λ se pse. (se, some pse);
  set_last_buddy = λ se f. f;
  set_skip_buddy = λ se f. f;
  resched_curr = λ s. record s { need_resched = true };
  rq_clock_skip_update = λ b t. t;
  resched-asks = λ s. refl;
}

abbrev idler : Runner
idler = record { task = 1; se = 2; policy = 5 }

abbrev batch : Runner
batch = record { task = 7; se = 8; policy = 3 }

abbrev running_on : Waking
running_on = record { groups = record { cfs = λ q. queue; nr_running = 2 }; need_resched = false }

check_preempt_wakeup-Asks_example :
    Asks true (
      check_preempt_wakeup one_group wake_ops choice vruntimes scale 6000 idler batch 0 0
        running_on)
check_preempt_wakeup-Asks_example =
    check_preempt_wakeup-Asks one_group wake_ops choice vruntimes scale 6000 idler batch 0 0
      running_on (λ e. omega arith)
