-- ===== src/Sched/SwitchTests.antt =====
-- kernel/core/sched/sched.c: a kernel thread and a task with memory of its own, on one CPU.
use kernal.Prelude.{
  ℕ, ◌≡◌, ◌⊎◌, inr, refl, Option, none, some, List, [], ◌∷◌, ◌==◌, if◌then◌else◌, arith,
}
use kernal.Task.Fields.{Pointer, Task}
use kernal.Task.Fork.{Outcome, done, fault}
use kernal.Task.New.{new_task}
use kernal.Task.Samples.{one_task}
use kernal.Sched.Samples.{real_time, ops, zeroed, noon}
use kernal.Sched.Clock.{update_rq_clock, update_rq_clock_task}
use kernal.Sched.Ticks.{Advanced, update_rq_clock-Advanced}
use kernal.Sched.Switch.{System, set_rq, class_loop, pick_next_task, schedule}
use kernal.Sched.Choice.{pick_next_task-class_loop}
use kernal.Sched.Scheduled.{Scheduled, schedule-Scheduled}

-- The task 1 has the memory 7; the others have none.
abbrev tasks : ℕ → Task
tasks p =
    if p == 1
    then record (one_task.task 1) {
      space = record (one_task.task 1).space { mm = some 7; active_mm = some 7 };
    }
    else one_task.task 2

abbrev two_tasks : System (List ℕ)
two_tasks = record {
  kernel = record one_task { task = tasks };
  rq = record zeroed { curr = some 1 };
  classes = 2 ∷ [];
}

update_rq_clock-Advanced_example : Advanced noon zeroed.times (update_rq_clock noon zeroed).times
update_rq_clock-Advanced_example =
    update_rq_clock-Advanced noon zeroed (omega arith) (omega arith) refl refl

-- Of 2^32 + 5 nanoseconds the clock takes 5.
short_clock : (update_rq_clock noon zeroed).times.clock ≡ 5
unfolding update_rq_clock update_rq_clock_task
short_clock = refl

schedule-Scheduled_example :
    ((next : ℕ) × ((pick_next_task ops (some 1) (set_rq (update_rq_clock noon) two_tasks)).0
        ≡ some next)
      × Scheduled ops two_tasks 1 next (schedule ops noon two_tasks))
    ⊎ (((pick_next_task ops (some 1) (set_rq (update_rq_clock noon) two_tasks)).0 ≡ none)
        × (schedule ops noon two_tasks ≡ fault))
schedule-Scheduled_example = schedule-Scheduled ops two_tasks 1 refl refl noon

-- The thread 2 runs with the memory 7 of the task 1, which has a reference more.
abbrev lent_count : Outcome (System (List ℕ)) → Option (ℕ × Pointer)
lent_count (done s) = some (s.kernel.mm_count 7, (s.kernel.task 2).space.active_mm)
lent_count _ = none

lends : lent_count (schedule ops noon two_tasks) ≡ some (1, some 7)
unfolding schedule update_rq_clock new_task
lends = refl

pick_next_task-class_loop_example :
    pick_next_task ops (some 1) two_tasks ≡ class_loop ops.sched_class_list (some 1) two_tasks
pick_next_task-class_loop_example =
    pick_next_task-class_loop ops (real_time ∷ []) [] (some 1) two_tasks refl
      (λ e. ((refl, refl, tt), inr (λ q. cc)))
