-- ===== src/Task/Samples.antt =====
-- kernel/core/sched/sched.c: a heap with two blocks left, and one task.
use kernal.Prelude.{ℕ, ◌≡◌, Bool, false, ◌||◌, Option, none, some, [], ◌==◌, if◌then◌else◌, arith}
use kernal.Task.Outside.{Outside}
use kernal.Task.New.{new_task}
use kernal.Task.Life.{Kernel}

abbrev pub two_blocks : ℕ → (ℕ → Bool) → Option ℕ
two_blocks size live = if live 10 then (if live 11 then none else some 11) else some 10

pub two_blocks-fresh :
    (size : ℕ) (live : ℕ → Bool) (p : ℕ) → two_blocks size live ≡ some p → live p ≡ false
two_blocks-fresh size live p e = ground arith

abbrev pub heap : Outside
heap = record {
  kmalloc = two_blocks;
  mm_alloc = some 20;
  sizeof_task = 1000;
  sigchld = 17;
  sched_normal = 0;
  default_timeslice = 100;
  kmalloc-fresh = two_blocks-fresh;
}

abbrev pub one_task : Kernel
one_task = record {
  task = λ _. new_task heap 1 2 1;
  live = λ q. q == 1 || q == 2;
  double_free = false;
  next_pid = 2;
  jiffies = 5;
  current = some 1;
  task_list = [];
  mm_count = λ _. 0;
}
