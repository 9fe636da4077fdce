-- ===== src/Task/Life.antt =====
-- kernel/core/sched/sched.c: the allocation, the copy and the release of a task.
use kernal.Prelude.{
  ℕ, ◌+◌, ◌-◌, ◌%◌, ◌^◌, Bool, true, false, Option, none, some, List, [], ◌==◌, if◌then◌else◌,
}
use kernal.Spinlock.{spin_lock_init}
use kernal.Sched.{alloc_pid}
use kernal.Buddy.{write}
use kernal.Task.Fields.{Pointer, Task}
use kernal.Task.Outside.{Outside}
use kernal.Task.New.{task_running, thread_size, new_task}

-- The tasks and the blocks of the heap by address, and the variables of the file. `double_free` tells
-- whether `kfree` was given a block that was not in use.
pub record Kernel : Type 0 where
  pub task : ℕ → Task
  pub live : ℕ → Bool
  pub double_free : Bool
  pub next_pid : ℕ
  pub jiffies : ℕ
  pub current : Pointer
  pub task_list : List ℕ
  pub mm_count : ℕ → ℕ

unfoldable pub kfree : ℕ → Kernel → Kernel
kfree p k = record k {
  live = write k.live p false;
  double_free = if k.live p then k.double_free else true;
}

-- u64 get_jiffies_64(void)
unfoldable pub get_jiffies_64 : Kernel → ℕ × Kernel
get_jiffies_64 k = (k.jiffies, record k { jiffies = (k.jiffies + 1) % 2 ^ 64 })

abbrev pub set_task : ℕ → Task → Kernel → Kernel
set_task p t k = record k { task = write k.task p t }

module _ (O : Outside) where
  open O use {kmalloc, sizeof_task}

  -- The end of `alloc_task_struct`, from the test of the stack.
  unfoldable pub alloc_stack : ℕ → Option ℕ → Kernel → Pointer × Kernel
  alloc_stack p none k = (none, kfree p k)
  alloc_stack p (some stack) k = (
    some p,
    record k {
      live = write k.live stack true;
      next_pid = (alloc_pid k.next_pid).1;
      task = write k.task p (new_task O p stack (alloc_pid k.next_pid).0);
    },
  )

  unfoldable pub alloc_block : Option ℕ → Kernel → Pointer × Kernel
  unfolding alloc_stack
  alloc_block none k = (none, k)
  alloc_block (some p) k =
      alloc_stack p (kmalloc thread_size (write k.live p true))
        (record k { live = write k.live p true })

  unfoldable pub alloc_task_struct : Kernel → Pointer × Kernel
  unfolding alloc_block
  alloc_task_struct k = alloc_block (kmalloc sizeof_task k.live) k

unfoldable pub free_stack : Pointer → Kernel → Kernel
free_stack none k = k
free_stack (some s) k = kfree s k

unfoldable pub free_task_struct : Pointer → Kernel → Kernel
unfolding free_stack
free_task_struct none k = k
free_task_struct (some t) k = kfree t (free_stack (k.task t).stack k)

-- An `atomic_t` holds 32 bits.
abbrev pub set_usage : ℕ → ℕ → Kernel → Kernel
set_usage t n k = set_task t (record (k.task t) { usage = n % 2 ^ 32 }) k

pub get_task_struct : ℕ → Kernel → Kernel
get_task_struct t k = set_usage t ((k.task t).usage + 1) k

unfoldable pub put_task_struct : ℕ → Kernel → Kernel
unfolding free_task_struct
put_task_struct t k =
    let k1 = set_usage t ((k.task t).usage + 2 ^ 32 - 1) k in
    if (k1.task t).usage == 0 then free_task_struct (some t) k1 else k1

-- `*tsk = *orig` and what `dup_task_struct` then sets, at the pid and the time that it is given.
unfoldable pub copied : Task → ℕ → ℕ → Task
copied o pid now = record o {
  ids = record o.ids { pid = pid };
  state = task_running;
  exit_state = 0;
  exit_code = 0;
  family = record o.family { children = []; sibling = [] };
  on_tree = false;
  alloc_lock = spin_lock_init o.alloc_lock;
  attached = record o.attached { wait_chldexit = [] };
  times = record o.times {
    utime = 0;
    stime = 0;
    gtime = 0;
    start_time = now;
    real_start_time = now;
    min_flt = 0;
    maj_flt = 0;
    nvcsw = 0;
    nivcsw = 0;
  };
  se = record o.se {
    exec_start = 0;
    sum_exec_runtime = 0;
    prev_sum_exec_runtime = 0;
    nr_migrations = 0;
  };
  usage = 1;
}

-- The end of `dup_task_struct`, from the test of the new task.
unfoldable pub dup_into : ℕ → Pointer × Kernel → Pointer × Kernel
unfolding copied get_jiffies_64
dup_into orig (none, k) = (none, k)
dup_into orig (some tsk, k) =
    let (pid, next) = alloc_pid k.next_pid in
    let (now, k1) = get_jiffies_64 k in
    (some tsk, set_task tsk (copied (k.task orig) pid now) (record k1 { next_pid = next }))

unfoldable pub dup_task_struct : Outside → ℕ → Kernel → Pointer × Kernel
unfolding dup_into alloc_task_struct
dup_task_struct O orig k = dup_into orig (alloc_task_struct O k)
