-- ===== src/Task/Forked.antt =====
-- kernel/core/sched/sched.c: what `sched_fork` makes of a task, and what it does before there is one.
use kernal.Prelude.{
  ℕ, ◌≤◌, ◌<◌, ◌≡◌, ◌≢◌, refl, ◌∙◌, ◌⊎◌, inl, inr, Option, none, some, [], ◌∷◌, ◌++◌, arith,
}
use kernal.Task.Fields.{Pointer}
use kernal.Task.Outside.{Outside}
use kernal.Task.Life.{Kernel, get_jiffies_64, alloc_task_struct}
use kernal.Task.Fork.{
  Outcome, done, panic, fault, weight_of, forked, fork_state, fork_with, fork_from, sched_fork,
  init_fork, init_with, create_init_process,
}
use kernal.Task.Weights.{weight_cases}
use kernal.Task.Allocated.{alloc_task_struct-current}

-- What `sched_fork` leaves for the task `p` of a current task `c`.
pub record IsForked (O : Outside) (k k' : Kernel) (p c : ℕ) : Type 0 where
  pub weight : weight_of (k.task c).prios.static_prio ≡ some (k'.task p).se.load.weight
  pub runs : ((k'.task p).state ≡ 0) × ((k'.task p).se.vruntime ≡ 0)
  pub prio : (k'.task p).prios.prio ≡ (k.task c).prios.normal_prio
  pub static_prio : (k'.task p).prios.static_prio ≡ (k.task c).prios.static_prio
  pub normal_prio : (k'.task p).prios.normal_prio ≡ (k.task c).prios.normal_prio
  pub policy : (k'.task p).prios.policy ≡ O.sched_normal
  pub listed : k'.task_list ≡ k.task_list ++ p ∷ []
  pub kept : ((k'.task p).ids ≡ (k.task p).ids) × ((k'.task p).stack ≡ (k.task p).stack)
  pub others : (q : ℕ) → q ≢ p → k'.task q ≡ k.task q

-- `sched_fork` ends without a fault exactly with a current task whose priority has a weight.
abbrev pub Forked : Outside → Kernel → ℕ → Outcome Kernel → Type 0
Forked O k p (done k') =
    (c : ℕ) × (k.current ≡ some c)
    × (100 ≤ (k.task c).prios.static_prio)
    × ((k.task c).prios.static_prio < 140)
    × IsForked O k k' p c
Forked O k p panic = ⊥
Forked O k p fault =
    (k.current ≡ none)
    ⊎ ((c : ℕ) × (k.current ≡ some c)
        × (((k.task c).prios.static_prio < 100) ⊎ (140 ≤ (k.task c).prios.static_prio)))

fork_state-IsForked :
    (O : Outside) (k : Kernel) (p c w : ℕ)
    → weight_of (k.task c).prios.static_prio ≡ some w
    → IsForked O k (fork_state O p c w k) p c
unfolding fork_state forked
fork_state-IsForked O k p c w e = record {
  weight = ground (arith, e);
  runs = ground arith;
  prio = ground arith;
  static_prio = ground arith;
  normal_prio = ground arith;
  policy = ground arith;
  listed = refl;
  kept = ground arith;
  others = λ q n. ground arith;
}

fork_from-Forked :
    (O : Outside) (k : Kernel) (p : ℕ) (c : Pointer)
    → k.current ≡ c
    → Forked O k p (fork_from O p c k)
unfolding fork_from fork_with
fork_from-Forked O k p none e = inl e
fork_from-Forked O k p (some c) e = elim (weight_cases (k.task c).prios.static_prio) [
  | inl (lo, hi, w, q) ↦ rw q (c, e, lo, hi, fork_state-IsForked O k p c w q)
  | inr (o, q) ↦ rw q (inr (c, e, o))
]

-- sched_fork never panics. It ends with a current task whose static priority lies from 100 to 139:
-- then the task has the weight of that priority, runs with a vruntime of 0 and the policy
-- SCHED_NORMAL, has the static and the normal priority of the current task and, as its prio, the
-- normal priority of the current task, keeps its own ids and stack, is last in the task list, and
-- no other task is changed. It faults where no task is current or the priority lies outside that
-- range.
pub sched_fork-Forked : (O : Outside) (k : Kernel) (p : ℕ) → Forked O k p (sched_fork O p k)
unfolding sched_fork
sched_fork-Forked O k p = fork_from-Forked O k p k.current refl

init_with-stops :
    (O : Outside) (r : Pointer × Kernel) (mm : Option ℕ)
    → r.1.current ≡ none
    → (init_with O r mm ≡ panic) ⊎ (init_with O r mm ≡ fault)
unfolding init_with init_fork sched_fork fork_from get_jiffies_64
init_with-stops O (none, k) mm e = inl refl
init_with-stops O (some p, k) none e = inl refl
init_with-stops O (some p, k) (some mm) e = inr (rw e)

-- With no current task, as while the kernel starts, create_init_process returns no task, whatever
-- the heap: it panics or it faults.
pub create_init_process-stops :
    (O : Outside) (k : Kernel)
    → k.current ≡ none
    → (create_init_process O k ≡ panic) ⊎ (create_init_process O k ≡ fault)
unfolding create_init_process
create_init_process-stops O k e =
    init_with-stops O (alloc_task_struct O k) O.mm_alloc (alloc_task_struct-current O k ∙ e)
