-- ===== src/Task/New.antt =====
-- kernel/core/sched/sched.c: what `alloc_task_struct` writes to a task.
use kernal.Prelude.{ℕ, ◌-◌, ◌^◌, false, none, some, List, [], ◌∷◌, get_or}
use kernal.Prelude.Int.{negsuc}
use kernal.Task.Fields.{Task}
use kernal.Task.Outside.{Outside}

abbrev pub task_running : ℕ
task_running = 0

abbrev pub default_prio : ℕ
default_prio = 120

abbrev pub max_rt_prio : ℕ
max_rt_prio = 100

abbrev pub nr_cpus : ℕ
nr_cpus = 1

abbrev pub thread_size : ℕ
thread_size = 16384

-- `prio_to_weight`; a read outside the array has no value.
abbrev pub prio_to_weight : List ℕ
prio_to_weight =
    88761 ∷ 71755 ∷ 56483 ∷ 46273 ∷ 36291 ∷ 29154 ∷ 23254 ∷ 18705 ∷ 14949 ∷ 11916 ∷ 9548 ∷ 7620
    ∷ 6100 ∷ 4904 ∷ 3906 ∷ 3121 ∷ 2501 ∷ 1991 ∷ 1586 ∷ 1277 ∷ 1024 ∷ 820 ∷ 655 ∷ 526 ∷ 423 ∷ 335
    ∷ 272 ∷ 215 ∷ 172 ∷ 137 ∷ 110 ∷ 87 ∷ 70 ∷ 56 ∷ 45 ∷ 36 ∷ 29 ∷ 23 ∷ 18 ∷ 15 ∷ []

-- "suibian"
abbrev pub new_comm : List ℕ
new_comm = 115 ∷ 117 ∷ 105 ∷ 98 ∷ 105 ∷ 97 ∷ 110 ∷ []

module _ (O : Outside) where
  open O use {kmalloc, sizeof_task, sigchld, sched_normal, default_timeslice}

  -- What `alloc_task_struct` leaves in the block at `p`, all of whose bytes were cleared.
  unfoldable pub new_task : ℕ → ℕ → ℕ → Task
  new_task p stack pid = record {
    state = task_running;
    exit_state = 0;
    exit_code = 0;
    exit_signal = sigchld;
    flags = 0;
    ptrace = 0;
    ids = record { pid = pid; tgid = pid; ppid = 0; pgrp = 0; session = 0 };
    creds = record {
      uid = 0;
      gid = 0;
      euid = 0;
      egid = 0;
      suid = 0;
      sgid = 0;
      fsuid = 0;
      fsgid = 0;
    };
    prios = record {
      prio = default_prio;
      static_prio = default_prio;
      normal_prio = default_prio;
      policy = sched_normal;
      cpus_allowed = 2 ^ nr_cpus - 1;
      nr_cpus_allowed = nr_cpus;
    };
    se = record {
      load = record {
        weight = get_or prio_to_weight (default_prio - max_rt_prio) 0;
        inv_weight = 0;
      };
      exec_start = 0;
      sum_exec_runtime = 0;
      vruntime = 0;
      prev_sum_exec_runtime = 0;
      nr_migrations = 0;
      on_rq = false;
    };
    rt = record {
      run_list = [];
      timeout = 0;
      watchdog_stamp = 0;
      time_slice = default_timeslice;
      back = none;
      parent = none;
      rt_rq = none;
      my_q = none;
    };
    family = record {
      real_parent = none;
      parent = none;
      children = [];
      sibling = [];
      group_leader = some p;
    };
    on_tree = false;
    space = record {
      mm = none;
      active_mm = none;
      fs = none;
      files = none;
      signal = none;
      sighand = none;
      blocked = 0;
      real_blocked = 0;
      saved_sigmask = 0;
    };
    stack = some stack;
    stack_size = thread_size;
    regs = none;
    times = record {
      utime = 0;
      stime = 0;
      gtime = 0;
      start_time = 0;
      real_start_time = 0;
      min_flt = 0;
      maj_flt = 0;
      nvcsw = 0;
      nivcsw = 0;
    };
    comm = new_comm;
    hooks = record {
      thread_fn = none;
      thread_data = none;
      nsproxy = none;
      audit_context = none;
      perf_event_ctxp = none;
      sched_task_group = none;
      cgroups = none;
      ptraced = [];
      ptrace_entry = [];
    };
    alloc_lock = record { lock = 0; owner_cpu = 0; owner = 0; magic = 0 };
    marks = record {
      personality = 0;
      did_exec = 0;
      in_execve = 0;
      in_iowait = 0;
      no_new_privs = 0;
      sched_reset_on_fork = 0;
      sched_contributes_to_load = 0;
      sched_migrated = 0;
      preempt_count = 0;
    };
    debug = record {
      security = none;
      trace = 0;
      trace_recursion = 0;
      delays = none;
      make_it_fail = 0;
      scm_work_list = none;
    };
    usage = 1;
    attached = record {
      wait_chldexit = [];
      task_exit_notifier = none;
      stats = none;
      mempolicy = none;
      il_next = 0;
      pref_node_fork = 0;
      bio_list = none;
      plug = none;
      blocked_on = none;
      tracer = none;
      socket = none;
      net_ns = none;
    };
    sched_info = record { pcount = 0; run_delay = 0; last_arrival = 0; last_queued = 0; pcnt = 0 };
    place = record {
      last_cpu = negsuc 0;
      wake_cpu = negsuc 0;
      migrate_disable = 0;
      rcu_read_lock_nesting = 0;
      rcu_read_unlock_special = 0;
      rcu_blocked_node = none;
      rcu_tasks_holdout_list = [];
      rcu_tasks_holdout = 0;
      rcu_tasks_idle_cpu = negsuc 0;
    };
  }
