-- ===== src/Task/Copy.antt =====
-- kernel/core/sched/sched.c: a copy from `dup_task_struct` has the stack of the task it was made of.
use kernal.Prelude.{ℕ, ◌≡◌, ◌≢◌, true, false, none, some, arith}
use kernal.Task.Fields.{Pointer}
use kernal.Task.Outside.{Outside}
use kernal.Task.Life.{Kernel, alloc_task_struct, copied, dup_into, dup_task_struct, get_jiffies_64}
use kernal.Task.Allocated.{Allocated, alloc_task_struct-Allocated}

-- A task with a stack, both in use.
pub record IsTask (k : Kernel) (t s : ℕ) : Type 0 where
  pub live_task : k.live t ≡ true
  pub live_stack : k.live s ≡ true
  pub points : (k.task t).stack ≡ some s
  pub apart : t ≢ s

-- No task, and no block taken; or a task with the stack `s` and the one new reference, while the
-- stack that was allocated for it is in use and is not its stack.
abbrev pub Duped : Kernel → ℕ → Pointer × Kernel → Type 0
Duped k s (none, k') = (q : ℕ) → k'.live q ≡ k.live q
Duped k s (some tsk, k') =
    ((k'.task tsk).stack ≡ some s)
    × ((k'.task tsk).usage ≡ 1)
    × ((lost : ℕ) × (k.live lost ≡ false)
        × (k'.live lost ≡ true)
        × (lost ≢ tsk)
        × ((k'.task tsk).stack ≢ some lost))

dup_into-Duped :
    (k : Kernel) (orig s : ℕ) (r : Pointer × Kernel)
    → IsTask k orig s
    → Allocated k r
    → Duped k s (dup_into orig r)
unfolding dup_into copied get_jiffies_64
dup_into-Duped k orig s (none, k') v a = a.0
dup_into-Duped k orig s (some tsk, k') v a = (
  ground (arith, a.others orig),
  ground arith,
  (
    a.stack,
    a.stack_free,
    ground (arith, a.live a.stack),
    ground (arith, a.apart),
    ground (arith, a.others orig),
  ),
)

-- For a task in use with a stack in use, and every heap: dup_task_struct returns no task and takes
-- no block, or it returns a task with one reference whose stack is the stack of the task it was
-- made of, while the block that was allocated for its stack is in use and is not its stack.
pub dup_task_struct-Duped :
    (O : Outside) (k : Kernel) (orig s : ℕ) → IsTask k orig s → Duped k s (dup_task_struct O orig k)
unfolding dup_task_struct
dup_task_struct-Duped O k orig s v =
    dup_into-Duped k orig s (alloc_task_struct O k) v (alloc_task_struct-Allocated O k)
