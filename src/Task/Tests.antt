-- ===== src/Task/Tests.antt =====
-- kernel/core/sched/sched.c: the task functions on a heap with two blocks left, and one task.
use kernal.Prelude.{refl, arith}
use kernal.Task.New.{new_task}
use kernal.Task.Life.{alloc_task_struct, put_task_struct, dup_task_struct}
use kernal.Task.Fork.{sched_fork}
use kernal.Task.Allocated.{Allocated, alloc_task_struct-Allocated}
use kernal.Task.Copy.{IsTask, Duped, dup_task_struct-Duped}
use kernal.Task.Refs.{IsPut, put_task_struct-IsPut}
use kernal.Task.Forked.{Forked, sched_fork-Forked}
use kernal.Task.Samples.{heap, one_task}

one_task-IsTask : IsTask one_task 1 2
unfolding new_task
one_task-IsTask = record { live_task = refl; live_stack = refl; points = refl; apart = omega arith }

alloc_task_struct-Allocated_example : Allocated one_task (alloc_task_struct heap one_task)
alloc_task_struct-Allocated_example = alloc_task_struct-Allocated heap one_task

dup_task_struct-Duped_example : Duped one_task 2 (dup_task_struct heap 1 one_task)
dup_task_struct-Duped_example = dup_task_struct-Duped heap one_task 1 2 one_task-IsTask

put_task_struct-IsPut_example : IsPut one_task (put_task_struct 1 one_task) 1 2 1
unfolding new_task
put_task_struct-IsPut_example =
    put_task_struct-IsPut one_task 1 2 one_task-IsTask (omega arith) (omega arith)

sched_fork-Forked_example : Forked heap one_task 3 (sched_fork heap 3 one_task)
sched_fork-Forked_example = sched_fork-Forked heap one_task 3
