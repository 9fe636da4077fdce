-- ===== src/Sched/Switch.antt =====
-- kernel/core/sched/sched.c: the run queue of the one CPU, `schedule`, and the switch of the context.
use kernal.Prelude.{
  ℕ, ◌+◌, ◌-◌, ◌%◌, ◌^◌, ◌≡◌, Bool, none, some, List, [], ◌∷◌, ◌==◌, if◌then◌else◌,
}
use kernal.Buddy.{write}
use kernal.Task.Fields.{Pointer, Task}
use kernal.Task.New.{task_running}
use kernal.Task.Life.{Kernel, set_task, put_task_struct}
use kernal.Task.Fork.{Outcome, done, panic, fault}
use kernal.Sched.Rq.{Rq}
use kernal.Sched.Clock.{Reading, update_rq_clock}

-- The tasks, the run queue, and what the scheduling classes keep.
pub record System (S : Type 0) : Type 0 where
  pub kernel : Kernel
  pub rq : Rq
  pub classes : S

-- `struct sched_class`, as far as sched.c calls it: an operation reads the tasks and the run queue,
-- and changes what the classes keep.
pub record SchedClass (S : Type 0) : Type 0 where
  pub enqueue_task : ℕ → ℕ → System S → S
  pub dequeue_task : ℕ → ℕ → System S → S
  pub pick_next_task : Pointer → System S → Pointer × S

-- What sched.c uses and no file defines. `class_of` is `p->sched_class`; `sched_class_list` is the
-- order of `for_each_class`. `mmdrop` gives a reference back.
pub record SchedOps (S : Type 0) : Type 0 where
  pub fair : SchedClass S
  pub sched_class_list : List (SchedClass S)
  pub class_of : ℕ → SchedClass S
  pub nr_running : S → ℕ
  pub h_nr_running : S → ℕ
  pub task_contributes_to_load : Task → Bool
  pub check_preempt_curr : ℕ → System S → System S
  pub clear_tsk_need_resched : Task → Task
  pub mmdrop : ℕ → (ℕ → ℕ) → ℕ → ℕ
  pub task_dead : ℕ
  pub mmdrop-count : (m : ℕ) (c : ℕ → ℕ) → mmdrop m c ≡ write c m ((c m + 2 ^ 32 - 1) % 2 ^ 32)
  pub clear-space : (t : Task) → (clear_tsk_need_resched t).space ≡ t.space

abbrev pub set_active_mm : ℕ → Pointer → Kernel → Kernel
set_active_mm p m k =
    set_task p (record (k.task p) { space = record (k.task p).space { active_mm = m } }) k

-- The memory that the next task runs in: its own, or that of the previous task, which it borrows.
unfoldable pub borrow_mm : ℕ → Pointer → Pointer → Kernel → Outcome Kernel
borrow_mm next (some mm) oldmm k = done k
borrow_mm next none none k = fault
borrow_mm next none (some m) k =
    let k1 = set_active_mm next (some m) k in
    done (record k1 { mm_count = write k1.mm_count m ((k1.mm_count m + 1) % 2 ^ 32) })

module _ {S : Type 0} where
  abbrev pub set_rq : (Rq → Rq) → System S → System S
  set_rq f s = record s { rq = f s.rq }

  abbrev pub set_kernel : Kernel → System S → System S
  set_kernel k s = record s { kernel = k }

  -- `for_each_class`, and the idle task behind it.
  unfoldable pub class_loop : List (SchedClass S) → Pointer → System S → Pointer × System S
  class_loop [] prev s = (s.rq.idle, s)
  class_loop (c ∷ cs) prev s =
      let r = c.pick_next_task prev s in
      let rest = class_loop cs prev (record s { classes = r.1 }) in
      elim r.0 [ some p ↦ (some p, record s { classes = r.1 }) | none ↦ rest ]

  unfoldable pub leave_mm : ℕ → Pointer → Pointer → System S → System S
  leave_mm prev (some mm) oldmm s = s
  leave_mm prev none oldmm s = record s {
    kernel = set_active_mm prev none s.kernel;
    rq = record s.rq { prev_mm = oldmm };
  }

module _ {S : Type 0} (O : SchedOps S) where
  open O use {
    fair, sched_class_list, class_of, nr_running, h_nr_running, task_contributes_to_load,
    check_preempt_curr, clear_tsk_need_resched, mmdrop, task_dead,
  }

  unfoldable pub enqueue_task : Reading → ℕ → ℕ → System S → System S
  unfolding update_rq_clock
  enqueue_task r p flags s =
      let s1 = set_rq (update_rq_clock r) s in
      record s1 { classes = (class_of p).enqueue_task p flags s1 }

  unfoldable pub dequeue_task : Reading → ℕ → ℕ → System S → System S
  unfolding update_rq_clock
  dequeue_task r p flags s =
      let s1 = set_rq (update_rq_clock r) s in
      record s1 { classes = (class_of p).dequeue_task p flags s1 }

  unfoldable pub activate_task : Reading → ℕ → ℕ → System S → System S
  unfolding enqueue_task
  activate_task r p flags s = enqueue_task r p flags (
      if task_contributes_to_load (s.kernel.task p)
      then set_rq
          (λ q. record q { nr_uninterruptible = (q.nr_uninterruptible + 2 ^ 32 - 1) % 2 ^ 32 }) s
      else s)

  unfoldable pub deactivate_task : Reading → ℕ → ℕ → System S → System S
  unfolding dequeue_task
  deactivate_task r p flags s = dequeue_task r p flags (
      if task_contributes_to_load (s.kernel.task p)
      then set_rq (λ q. record q { nr_uninterruptible = (q.nr_uninterruptible + 1) % 2 ^ 32 }) s
      else s)

  unfoldable pub wake_up_new_task : Reading → ℕ → System S → System S
  unfolding activate_task
  wake_up_new_task r p s =
      let k = set_task p (record (s.kernel.task p) { state = task_running }) s.kernel in
      check_preempt_curr p (activate_task r p 0 (set_kernel k s))

  unfoldable pub pick_next_task : Pointer → System S → Pointer × System S
  unfolding class_loop
  pick_next_task prev s =
      let r = fair.pick_next_task prev s in
      let s1 = record s { classes = r.1 } in
      let rest = class_loop sched_class_list prev s1 in
      if nr_running s.classes == h_nr_running s.classes
      then elim r.0 [ some p ↦ (some p, s1) | none ↦ rest ]
      else class_loop sched_class_list prev s

  abbrev pub drop_mm : Pointer → Kernel → Kernel
  drop_mm none k = k
  drop_mm (some m) k = record k { mm_count = mmdrop m k.mm_count }

  unfoldable pub finish_task_switch : ℕ → System S → System S
  finish_task_switch prev s =
      let k = drop_mm s.rq.prev_mm s.kernel in
      record s {
        rq = record s.rq { prev_mm = none };
        kernel = if (s.kernel.task prev).state == task_dead then put_task_struct prev k else k;
      }

  -- `switch_to` saves and restores registers and leaves the variables of sched.c; `current_task` is
  -- written by `set_current` alone.
  abbrev pub switched : ℕ → ℕ → Pointer → System S → Outcome Kernel → Outcome (System S)
  switched prev next oldmm s (done k) =
      let s1 = leave_mm prev (k.task prev).space.mm oldmm (set_kernel k s) in
      done (finish_task_switch prev s1)
  switched prev next oldmm s panic = panic
  switched prev next oldmm s fault = fault

  unfoldable pub context_switch : ℕ → ℕ → System S → Outcome (System S)
  unfolding borrow_mm leave_mm finish_task_switch
  context_switch prev next s =
      let oldmm = (s.kernel.task prev).space.active_mm in
      switched prev next oldmm s (borrow_mm next (s.kernel.task next).space.mm oldmm s.kernel)

  abbrev pub clear_resched : ℕ → System S → System S
  clear_resched prev s =
      set_kernel (set_task prev (clear_tsk_need_resched (s.kernel.task prev)) s.kernel) s

  abbrev pub start_switch : ℕ → System S → System S
  start_switch next s =
      set_rq (λ q. record q { nr_switches = (q.nr_switches + 1) % 2 ^ 64; curr = some next }) s

  abbrev pub switch_or_stay : ℕ → Pointer → System S → Outcome (System S)
  switch_or_stay prev none s = fault
  switch_or_stay prev (some next) s =
      if prev == next
      then done (clear_resched prev s)
      else context_switch prev next (start_switch next (clear_resched prev s))

  abbrev pub schedule_from : Pointer → Pointer × System S → Outcome (System S)
  schedule_from none r = fault
  schedule_from (some prev) (next, s) = switch_or_stay prev next s

  unfoldable pub schedule : Reading → System S → Outcome (System S)
  unfolding context_switch pick_next_task update_rq_clock
  schedule r s =
      let s1 = set_rq (update_rq_clock r) s in schedule_from s.rq.curr (pick_next_task s.rq.curr s1)
