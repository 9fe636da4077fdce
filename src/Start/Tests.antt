-- ===== src/Start/Tests.antt =====
-- src/kernel/main.c: the start on a heap with two blocks left, with and without a current task.
use kernal.Prelude.{ℕ, ◌≡◌, refl, ◌⊎◌, false, none, List, [], ◌∷◌}
use kernal.Task.New.{new_task}
use kernal.Task.Life.{Kernel, alloc_task_struct, alloc_block, alloc_stack, get_jiffies_64}
use kernal.Task.Fork.{
  create_init_process, init_with, init_fork, init_task, sched_fork, fork_from, fork_with, weight_of,
  fork_state, forked,
}
use kernal.Sched.Rq.{sched_init}
use kernal.Sched.Clock.{update_rq_clock}
use kernal.Sched.Switch.{schedule, wake_up_new_task, activate_task, enqueue_task}
use kernal.Task.Samples.{heap, one_task}
use kernal.Sched.Samples.{ops, zeroed, noon}
use kernal.Start.{
  Boot, StartOps, init_panics, init_faults, schedule_faults, kernel_main, main_from, kernel_init,
  init_woken, init_parts, init_sched, buddy_init,
}
use kernal.Start.Halts.{KeepsCurr, kernel_main-Halts}

abbrev start : StartOps (List ℕ)
start = record {
  mm_init = λ b. b;
  ipc_init = λ b. b;
  vfs_init = λ b. b;
  net_init = λ b. b;
  driver_init = λ b. b;
  heap = heap;
  sched = ops;
  at_wake = noon;
  at_schedule = noon;
}

abbrev boot : Kernel → Boot (List ℕ)
boot k = record {
  system = record { kernel = k; rq = zeroed; classes = [] };
  tables = record {
    zone_lock = zeroed.lock;
    zones = none ∷ none ∷ none ∷ none ∷ [];
    node_data = none ∷ [];
  };
  init_process = none;
  kernel_initialized = false;
}

keeps_curr : KeepsCurr start
keeps_curr = record {
  ipc_init-curr = λ b. refl;
  vfs_init-curr = λ b. refl;
  net_init-curr = λ b. refl;
  driver_init-curr = λ b. refl;
  check_preempt_curr-curr = λ p s. refl;
}

kernel_main-Halts_example :
    (kernel_main start (boot one_task) ≡ init_panics)
    ⊎ ((kernel_main start (boot one_task) ≡ init_faults)
        ⊎ (kernel_main start (boot one_task) ≡ schedule_faults))
kernel_main-Halts_example = kernel_main-Halts start keeps_curr (boot one_task)

-- With a current task the start comes as far as the first schedule.
starts : kernel_main start (boot one_task) ≡ schedule_faults
unfolding kernel_main main_from kernel_init init_woken init_parts init_sched buddy_init sched_init
    create_init_process init_with init_fork sched_fork fork_from fork_with weight_of
    alloc_task_struct alloc_block alloc_stack get_jiffies_64 schedule wake_up_new_task activate_task
    enqueue_task update_rq_clock new_task fork_state forked init_task
starts = refl
