-- ===== src/Sched/Rq.antt =====
-- kernel/include/sched.h: the fields of `struct rq` that kernel/core/sched/sched.c writes, in groups,
-- and `sched_init`.
use kernal.Prelude.{ℕ, none, List, []}
use kernal.Prelude.Int.{ℤ, pos, negsuc}
use kernal.Spinlock.{Lock, spin_lock_init}
use kernal.Task.Fields.{Pointer, LoadWeight, SchedInfo}
use kernal.Task.New.{max_rt_prio}
use kernal.Task.Life.{Kernel}

pub record Clocks : Type 0 where
  pub clock : ℕ
  pub clock_task : ℕ
  pub prev_irq_time : ℕ
  pub prev_steal_time : ℕ
  pub prev_steal_time_rq : ℕ

pub record Balance : Type 0 where
  pub next_balance : ℕ
  pub balance_callback : Pointer
  pub idle_balance : ℕ
  pub active_balance : ℤ
  pub push_cpu : ℤ
  pub balance_cpu : ℤ
  pub max_idle_balance_cost : ℕ

pub record Averages : Type 0 where
  pub nr_load_updates : ℕ
  pub avg_idle : ℕ
  pub idle_stamp : ℕ
  pub age_stamp : ℕ
  pub rt_avg : ℕ
  pub wake_stamp : ℕ
  pub wake_avg_idle : ℕ
  pub ttwu_count : ℕ
  pub ttwu_local : ℕ

pub record Nohz : Type 0 where
  pub nohz_tick_stopped : ℕ
  pub nohz_flags : ℕ
  pub nohz_stamp : ℕ
  pub last_load_update_tick : ℕ
  pub last_blocked_load_update_tick : ℕ
  pub has_blocked_load : ℕ

-- The run queues of the classes, as far as `sched_init` writes them.
pub record Queues : Type 0 where
  pub cfs_min_vruntime : ℕ
  pub cfs_nr_running : ℕ
  pub cfs_load : LoadWeight
  pub cfs_tasks : List ℕ
  pub cfs_timeline : List ℕ
  pub rt_nr_running : ℕ
  pub rt_highest_curr : ℕ
  pub rt_highest_next : ℕ
  pub dl_nr_running : ℕ
  pub dl_time : ℕ
  pub dl_bw : ℕ

pub record Rq : Type 0 where
  pub lock : Lock
  pub nr_uninterruptible : ℕ
  pub load : LoadWeight
  pub nr_switches : ℕ
  pub queues : Queues
  pub curr : Pointer
  pub idle : Pointer
  pub stop : Pointer
  pub prev_mm : Pointer
  pub times : Clocks
  pub balance : Balance
  pub averages : Averages
  pub nohz : Nohz
  pub cpu : ℤ
  pub online : ℤ
  pub rq_sched_info : SchedInfo

abbrev no_load : LoadWeight
no_load = record { weight = 0; inv_weight = 0 }

-- The round of the loop for the CPU 0, the only one. `nr_running`, that the classes count, is with
-- them. `nr_uninterruptible` and `prev_mm` keep the
-- zero of static storage, as `r` has them.
unfoldable pub init_rq : Rq → Rq
init_rq r = record r {
  lock = spin_lock_init r.lock;
  load = no_load;
  nr_switches = 0;
  queues = record {
    cfs_min_vruntime = 0;
    cfs_nr_running = 0;
    cfs_load = no_load;
    cfs_tasks = [];
    cfs_timeline = [];
    rt_nr_running = 0;
    rt_highest_curr = max_rt_prio;
    rt_highest_next = max_rt_prio;
    dl_nr_running = 0;
    dl_time = 0;
    dl_bw = 0;
  };
  curr = none;
  idle = none;
  stop = none;
  times = record r.times {
    clock = 0;
    clock_task = 0;
    prev_irq_time = 0;
    prev_steal_time = 0;
    prev_steal_time_rq = 0;
  };
  balance = record {
    next_balance = 0;
    balance_callback = none;
    idle_balance = 0;
    active_balance = pos 0;
    push_cpu = negsuc 0;
    balance_cpu = negsuc 0;
    max_idle_balance_cost = 0;
  };
  averages = record {
    nr_load_updates = 0;
    avg_idle = 0;
    idle_stamp = 0;
    age_stamp = 0;
    rt_avg = 0;
    wake_stamp = 0;
    wake_avg_idle = 0;
    ttwu_count = 0;
    ttwu_local = 0;
  };
  nohz = record {
    nohz_tick_stopped = 0;
    nohz_flags = 0;
    nohz_stamp = 0;
    last_load_update_tick = 0;
    last_blocked_load_update_tick = 0;
    has_blocked_load = 0;
  };
  cpu = pos 0;
  online = pos 1;
  rq_sched_info = record { pcount = 0; run_delay = 0; last_arrival = 0; last_queued = 0; pcnt = 0 };
}

unfoldable pub sched_init : Kernel × Rq → Kernel × Rq
unfolding init_rq
sched_init (k, r) = (record k { task_list = [] }, init_rq r)
