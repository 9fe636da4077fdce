-- ===== src/Start/Halts.antt =====
-- src/kernel/main.c: where the start of the kernel ends.
use kernal.Prelude.{ℕ, ◌≡◌, refl, ap, ◌∙◌, ◌⊎◌, inl, inr, none, some, Bool-cases}
use kernal.Task.Life.{Kernel, set_task}
use kernal.Task.New.{task_running}
use kernal.Task.Fork.{Outcome, done, panic, fault}
use kernal.Task.Forked.{create_init_process-stops}
use kernal.Sched.Rq.{sched_init}
use kernal.Sched.Clock.{Reading}
use kernal.Sched.Switch.{
  System, set_kernel, wake_up_new_task, activate_task, enqueue_task, schedule,
}
use kernal.Start.{
  Boot, StartOps, init_panics, init_faults, schedule_faults, init_sched, buddy_init, init_parts,
  set_current, after_schedule, init_woken, kernel_init, main_from, kernel_main,
}

-- The functions outside that run before the first process make no task the current one.
pub record KeepsCurrent {S : Type 0} (O : StartOps S) : Type 0 where
  pub mm_init-current : (b : Boot S) → (O.mm_init b).system.kernel.current ≡ b.system.kernel.current
  pub ipc_init-current :
      (b : Boot S) → (O.ipc_init b).system.kernel.current ≡ b.system.kernel.current
  pub vfs_init-current :
      (b : Boot S) → (O.vfs_init b).system.kernel.current ≡ b.system.kernel.current
  pub net_init-current :
      (b : Boot S) → (O.net_init b).system.kernel.current ≡ b.system.kernel.current
  pub driver_init-current :
      (b : Boot S) → (O.driver_init b).system.kernel.current ≡ b.system.kernel.current

-- The functions outside that run behind `sched_init` leave the task of the run queue.
pub record KeepsCurr {S : Type 0} (O : StartOps S) : Type 0 where
  pub ipc_init-curr : (b : Boot S) → (O.ipc_init b).system.rq.curr ≡ b.system.rq.curr
  pub vfs_init-curr : (b : Boot S) → (O.vfs_init b).system.rq.curr ≡ b.system.rq.curr
  pub net_init-curr : (b : Boot S) → (O.net_init b).system.rq.curr ≡ b.system.rq.curr
  pub driver_init-curr : (b : Boot S) → (O.driver_init b).system.rq.curr ≡ b.system.rq.curr
  pub check_preempt_curr-curr :
      (p : ℕ) (s : System S) → (O.sched.check_preempt_curr p s).rq.curr ≡ s.rq.curr

module _ {S : Type 0} (O : StartOps S) (keeps : KeepsCurrent O) where
  open keeps use {
    mm_init-current, ipc_init-current, vfs_init-current, net_init-current, driver_init-current,
  }

  init_parts-current :
      (b : Boot S) → (init_parts O b).system.kernel.current ≡ b.system.kernel.current
  unfolding init_parts init_sched buddy_init sched_init
  init_parts-current b =
      driver_init-current _
      ∙ net_init-current _
      ∙ vfs_init-current _
      ∙ ipc_init-current _
      ∙ mm_init-current b

  -- Where no task is current and the functions outside that kernel_init calls make none the
  -- current one: kernel_main panics or faults within kernel_init, whatever the heap, and calls
  -- schedule never.
  pub kernel_main-in_init :
      (b : Boot S)
      → b.system.kernel.current ≡ none
      → (kernel_main O b ≡ init_panics) ⊎ (kernel_main O b ≡ init_faults)
  unfolding kernel_main kernel_init init_woken main_from
  kernel_main-in_init b e =
      elim (create_init_process-stops O.heap (init_parts O b).system.kernel
        (init_parts-current b ∙ e)) [
          | inl stops ↦ inl (rw stops refl)
          | inr stops ↦ inr (rw stops refl)
        ]

module _ {S : Type 0} (O : StartOps S) (keeps : KeepsCurr O) where
  open keeps use {
    ipc_init-curr, vfs_init-curr, net_init-curr, driver_init-curr, check_preempt_curr-curr,
  }

  init_parts-curr : (b : Boot S) → (init_parts O b).system.rq.curr ≡ none
  unfolding init_parts init_sched buddy_init sched_init
  init_parts-curr b = driver_init-curr _ ∙ net_init-curr _ ∙ vfs_init-curr _ ∙ ipc_init-curr _

  activate_task-curr :
      (r : Reading) (p flags : ℕ) (s : System S)
      → (activate_task O.sched r p flags s).rq.curr ≡ s.rq.curr
  unfolding activate_task enqueue_task
  activate_task-curr r p flags s =
      elim (Bool-cases (O.sched.task_contributes_to_load (s.kernel.task p))) [
        | inl loads ↦ rw loads refl
        | inr not ↦ rw not refl
      ]

  wake_up_new_task-curr :
      (r : Reading) (p : ℕ) (s : System S) → (wake_up_new_task O.sched r p s).rq.curr ≡ s.rq.curr
  unfolding wake_up_new_task
  wake_up_new_task-curr r p s =
      let awake = record (s.kernel.task p) { state = task_running } in
      let s1 = set_kernel (set_task p awake s.kernel) s in
      check_preempt_curr-curr p (activate_task O.sched r p 0 s1) ∙ activate_task-curr r p 0 s1

  schedule-none : (r : Reading) (s : System S) → s.rq.curr ≡ none → schedule O.sched r s ≡ fault
  unfolding schedule
  schedule-none r s e = rw e refl

  woken-Halts :
      (b : Boot S) (r : Outcome (ℕ × Kernel))
      → b.system.rq.curr ≡ none
      → (main_from O (init_woken O b r) ≡ init_panics)
        ⊎ ((main_from O (init_woken O b r) ≡ init_faults)
            ⊎ (main_from O (init_woken O b r) ≡ schedule_faults))
  unfolding main_from init_woken
  woken-Halts b (done (p, k)) e = inr (
      inr (
        ap after_schedule (
          schedule-none O.at_schedule _ (
            wake_up_new_task-curr O.at_wake p (record b.system { kernel = set_current (some p) k })
            ∙ e))))
  woken-Halts b panic e = inl refl
  woken-Halts b fault e = inr (inl refl)

  -- Where the functions outside that run behind sched_init leave the task of the run queue: with a
  -- current task or without, kernel_main ends in kernel_init or in a fault of the first schedule,
  -- which reads the NULL that sched_init has put there, and never comes to its own panic.
  pub kernel_main-Halts :
      (b : Boot S)
      → (kernel_main O b ≡ init_panics)
        ⊎ ((kernel_main O b ≡ init_faults) ⊎ (kernel_main O b ≡ schedule_faults))
  unfolding kernel_main kernel_init
  kernel_main-Halts b = woken-Halts (init_parts O b) _ (init_parts-curr b)
