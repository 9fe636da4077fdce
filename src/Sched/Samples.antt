-- ===== src/Sched/Samples.antt =====
-- kernel/core/sched/sched.c: a fair class over the tasks that wait, and an empty run queue.
use kernal.Prelude.{ℕ, ◌+◌, ◌-◌, ◌%◌, ◌^◌, refl, false, none, some, List, [], ◌∷◌, ◌++◌}
use kernal.Prelude.Int.{pos}
use kernal.Buddy.{write}
use kernal.Task.Fields.{Pointer}
use kernal.Sched.Rq.{Rq}
use kernal.Sched.Clock.{Reading}
use kernal.Sched.Switch.{System, SchedClass, SchedOps}

-- The classes keep the tasks that wait; the fair class takes the first of them.
abbrev pub first_waiting : Pointer → System (List ℕ) → Pointer × List ℕ
first_waiting prev s = elim s.classes [ [] ↦ (none, []) | p ∷ ps ↦ (some p, ps) ]

abbrev pub fair : SchedClass (List ℕ)
fair = record {
  enqueue_task = λ p flags s. s.classes ++ p ∷ [];
  dequeue_task = λ p flags s. s.classes;
  pick_next_task = first_waiting;
}

abbrev pub real_time : SchedClass (List ℕ)
real_time = record {
  enqueue_task = λ p flags s. s.classes;
  dequeue_task = λ p flags s. s.classes;
  pick_next_task = λ prev s. (none, s.classes);
}

abbrev pub ops : SchedOps (List ℕ)
ops = record {
  fair = fair;
  sched_class_list = real_time ∷ fair ∷ [];
  class_of = λ p. fair;
  nr_running = λ s. 0;
  h_nr_running = λ s. 0;
  task_contributes_to_load = λ t. false;
  check_preempt_curr = λ p s. s;
  clear_tsk_need_resched = λ t. t;
  mmdrop = λ m c. write c m ((c m + 2 ^ 32 - 1) % 2 ^ 32);
  task_dead = 64;
  mmdrop-count = λ m c. refl;
  clear-space = λ t. refl;
}

-- Static storage.
abbrev pub zeroed : Rq
zeroed = record {
  lock = record { lock = 0; owner_cpu = 0; owner = 0; magic = 0 };
  nr_uninterruptible = 0;
  load = record { weight = 0; inv_weight = 0 };
  nr_switches = 0;
  queues = record {
    cfs_min_vruntime = 0;
    cfs_nr_running = 0;
    cfs_load = record { weight = 0; inv_weight = 0 };
    cfs_tasks = [];
    cfs_timeline = [];
    rt_nr_running = 0;
    rt_highest_curr = 0;
    rt_highest_next = 0;
    dl_nr_running = 0;
    dl_time = 0;
    dl_bw = 0;
  };
  curr = none;
  idle = none;
  stop = none;
  prev_mm = none;
  times = record {
    clock = 0;
    clock_task = 0;
    prev_irq_time = 0;
    prev_steal_time = 0;
    prev_steal_time_rq = 0;
  };
  balance = record {
    next_balance = 0;
    balance_callback = none;
    idle_balance = 0;
    active_balance = pos 0;
    push_cpu = pos 0;
    balance_cpu = pos 0;
    max_idle_balance_cost = 0;
  };
  averages = record {
    nr_load_updates = 0;
    avg_idle = 0;
    idle_stamp = 0;
    age_stamp = 0;
    rt_avg = 0;
    wake_stamp = 0;
    wake_avg_idle = 0;
    ttwu_count = 0;
    ttwu_local = 0;
  };
  nohz = record {
    nohz_tick_stopped = 0;
    nohz_flags = 0;
    nohz_stamp = 0;
    last_load_update_tick = 0;
    last_blocked_load_update_tick = 0;
    has_blocked_load = 0;
  };
  cpu = pos 0;
  online = pos 0;
  rq_sched_info = record { pcount = 0; run_delay = 0; last_arrival = 0; last_queued = 0; pcnt = 0 };
}

abbrev pub noon : Reading
noon = record { now = 2 ^ 32 + 5; irq = 3; steal = pos 1 }
