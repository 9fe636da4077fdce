-- ===== src/Task/Fork.antt =====
-- `sched_fork` of kernel/core/sched/sched.c, and the first process of src/kernel/main.c.
use Prim.Native.Nat.{bit_and}
use kernal.Prelude.{
  ℕ, ◌+◌, ◌-◌, ◌%◌, ◌^◌, Option, none, some, List, [], ◌∷◌, ◌++◌, ◌==◌, ltb, if◌then◌else◌,
  get_elem?,
}
use kernal.Prelude.Int.{pos}
use kernal.Buddy.{write}
use kernal.Task.Fields.{Pointer, Task, Space}
use kernal.Task.Outside.{Outside}
use kernal.Task.New.{task_running, default_prio, max_rt_prio, nr_cpus, prio_to_weight}
use kernal.Task.Life.{Kernel, set_task, alloc_task_struct, get_jiffies_64}

-- How a function ends: with a value, in `panic`, or in an access that C leaves undefined.
pub data Outcome {ℓ} (A : Type ℓ) : Type ℓ where
  done : A → Outcome A
  panic : Outcome A
  fault : Outcome A

abbrev pub fork_preempt_count : ℕ
fork_preempt_count = 2

-- prio_to_weight[static_prio - MAX_RT_PRIO]
unfoldable pub weight_of : ℕ → Option ℕ
weight_of static_prio =
    if ltb static_prio max_rt_prio
    then none
    else get_elem? prio_to_weight (static_prio - max_rt_prio)

-- if (p->flags & PF_KTHREAD)
unfoldable pub kthread_space : ℕ → Space → Pointer → Space
kthread_space flags s active =
    if bit_and flags 1 == 0 then s else record s { mm = none; active_mm = active }

unfoldable pub mm_get : ℕ → Pointer → (ℕ → ℕ) → ℕ → ℕ
mm_get flags none count = count
mm_get flags (some m) count =
    if bit_and flags 1 == 0 then count else write count m ((count m + 1) % 2 ^ 32)

-- What `sched_fork` makes of the task `t`, from the current task `c` and its weight.
unfoldable pub forked : Task → Task → ℕ → Task
forked t c weight = record t {
  state = task_running;
  se = record t.se {
    load = record { weight = weight; inv_weight = 0 };
    exec_start = 0;
    sum_exec_runtime = 0;
    prev_sum_exec_runtime = 0;
    vruntime = 0;
    nr_migrations = 0;
  };
  prios = record t.prios {
    prio = c.prios.normal_prio;
    static_prio = c.prios.static_prio;
    normal_prio = c.prios.normal_prio;
    cpus_allowed = c.prios.cpus_allowed;
    nr_cpus_allowed = c.prios.nr_cpus_allowed;
  };
  space = kthread_space t.flags t.space c.space.active_mm;
  sched_info = record { pcount = 0; run_delay = 0; last_arrival = 0; last_queued = 0; pcnt = 0 };
  place = record t.place { last_cpu = pos 0; wake_cpu = pos 0 };
  marks = record t.marks { preempt_count = fork_preempt_count };
}

module _ (O : Outside) where
  unfoldable pub fork_state : ℕ → ℕ → ℕ → Kernel → Kernel
  unfolding forked mm_get
  fork_state p c weight k =
      let t = forked (k.task p) (k.task c) weight in
      record k {
        task = write k.task p (record t { prios = record t.prios { policy = O.sched_normal } });
        mm_count = mm_get (k.task p).flags (k.task c).space.active_mm k.mm_count;
        task_list = k.task_list ++ p ∷ [];
      }

  unfoldable pub fork_with : ℕ → ℕ → Option ℕ → Kernel → Outcome Kernel
  unfolding fork_state
  fork_with p c none k = fault
  fork_with p c (some weight) k = done (fork_state p c weight k)

  unfoldable pub fork_from : ℕ → Pointer → Kernel → Outcome Kernel
  unfolding fork_with weight_of
  fork_from p none k = fault
  fork_from p (some c) k = fork_with p c (weight_of (k.task c).prios.static_prio) k

  -- The lock of the task list is free when it is taken.
  unfoldable pub sched_fork : ℕ → Kernel → Outcome Kernel
  unfolding fork_from
  sched_fork p k = fork_from p k.current k

  -- "init"
  abbrev pub init_comm : List ℕ
  init_comm = 105 ∷ 110 ∷ 105 ∷ 116 ∷ []

  -- The fields that `create_init_process` sets before it calls `sched_fork`.
  unfoldable pub init_task : ℕ → ℕ → ℕ → Task → Task
  init_task p mm now t = record t {
    ids = record { pid = 1; tgid = 1; ppid = 0; pgrp = 1; session = 1 };
    creds = record {
      uid = 0;
      gid = 0;
      euid = 0;
      egid = 0;
      suid = 0;
      sgid = 0;
      fsuid = 0;
      fsgid = 0;
    };
    comm = init_comm;
    space = record t.space { mm = some mm; active_mm = some mm };
    state = task_running;
    prios = record {
      prio = default_prio;
      static_prio = default_prio;
      normal_prio = default_prio;
      policy = O.sched_normal;
      cpus_allowed = 2 ^ nr_cpus - 1;
      nr_cpus_allowed = nr_cpus;
    };
    family = record t.family { real_parent = some p; parent = some p; group_leader = some p };
    times = record t.times { start_time = now; real_start_time = now };
  }

  unfoldable pub init_fork : ℕ → Outcome Kernel → Outcome (ℕ × Kernel)
  init_fork p (done k) = done (p, k)
  init_fork p panic = panic
  init_fork p fault = fault

  unfoldable pub init_with : Pointer × Kernel → Option ℕ → Outcome (ℕ × Kernel)
  unfolding init_fork sched_fork init_task get_jiffies_64
  init_with (none, k) mm = panic
  init_with (some p, k) none = panic
  init_with (some p, k) (some mm) =
      let (now, k1) = get_jiffies_64 k in
      init_fork p (sched_fork p (set_task p (init_task p mm now (k1.task p)) k1))

  unfoldable pub create_init_process : Kernel → Outcome (ℕ × Kernel)
  unfolding init_with alloc_task_struct
  create_init_process k = init_with (alloc_task_struct O k) O.mm_alloc
