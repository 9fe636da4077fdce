-- ===== src/Task/Allocated.antt =====
-- kernel/core/sched/sched.c: what `alloc_task_struct` leaves on each of its branches.
use kernal.Prelude.{
  ℕ, ◌≡◌, ◌≢◌, refl, true, false, ◌||◌, Option, none, some, ◌==◌, if◌then◌else◌, arith,
}
use kernal.Sched.{alloc_pid}
use kernal.Task.Fields.{Pointer}
use kernal.Task.Outside.{Outside}
use kernal.Task.New.{thread_size, new_task}
use kernal.Task.Life.{Kernel, kfree, alloc_stack, alloc_block, alloc_task_struct}
use kernal.Buddy.{write}

-- A task with a stack of its own, in two blocks that were not in use.
pub record IsNew (k k' : Kernel) (p : ℕ) : Type 0 where
  pub stack : ℕ
  pub points : (k'.task p).stack ≡ some stack
  pub block_free : k.live p ≡ false
  pub stack_free : k.live stack ≡ false
  pub apart : p ≢ stack
  pub live : (q : ℕ) → k'.live q ≡ (if q == p || q == stack then true else k.live q)
  pub pid : ((k'.task p).ids.pid, k'.next_pid) ≡ alloc_pid k.next_pid
  pub usage : (k'.task p).usage ≡ 1
  pub others : (q : ℕ) → q ≢ p → k'.task q ≡ k.task q
  pub double_free : k'.double_free ≡ k.double_free

-- NULL and nothing taken, or a new task.
abbrev pub Allocated : Kernel → Pointer × Kernel → Type 0
Allocated k (none, k') =
    ((q : ℕ) → k'.live q ≡ k.live q) × (k'.double_free ≡ k.double_free) × (k'.next_pid ≡ k.next_pid)
Allocated k (some p, k') = IsNew k k' p

module _ (O : Outside) where
  open O use {kmalloc-fresh}

  alloc_stack-Allocated :
      (k : Kernel) (p : ℕ) (r : Option ℕ)
      → k.live p ≡ false
      → ((s : ℕ) → r ≡ some s → write k.live p true s ≡ false)
      → Allocated k (alloc_stack O p r (record k { live = write k.live p true }))
  unfolding alloc_stack kfree new_task
  alloc_stack-Allocated k p none free h = (λ q. ground (arith, free), ground arith, refl)
  alloc_stack-Allocated k p (some s) free h = record {
    stack = s;
    points = ground arith;
    block_free = free;
    stack_free = ground (arith, h s refl);
    apart = ground (arith, h s refl);
    live = λ q. ground arith;
    pid = ground arith;
    usage = ground arith;
    others = λ q n. ground arith;
    double_free = refl;
  }

  alloc_block-Allocated :
      (k : Kernel) (r : Option ℕ)
      → ((p : ℕ) → r ≡ some p → k.live p ≡ false)
      → Allocated k (alloc_block O r k)
  unfolding alloc_block
  alloc_block-Allocated k none h = (λ q. refl, refl, refl)
  alloc_block-Allocated k (some p) h =
      alloc_stack-Allocated k p (O.kmalloc thread_size (write k.live p true)) (h p refl)
        (λ s e. kmalloc-fresh thread_size (write k.live p true) s e)

  -- For every heap whose kmalloc gives blocks that are not in use: alloc_task_struct returns NULL
  -- with no block taken, no pid used and nothing freed twice, or a task in a block that was not in
  -- use, with one reference, the next pid, and a stack in another such block; then exactly these
  -- two blocks are newly in use and no other task is changed.
  pub alloc_task_struct-Allocated : (k : Kernel) → Allocated k (alloc_task_struct O k)
  unfolding alloc_task_struct
  alloc_task_struct-Allocated k =
      alloc_block-Allocated k (O.kmalloc O.sizeof_task k.live)
        (λ p e. kmalloc-fresh O.sizeof_task k.live p e)

  pub alloc_task_struct-current : (k : Kernel) → (alloc_task_struct O k).1.current ≡ k.current
  unfolding alloc_task_struct alloc_block alloc_stack kfree
  alloc_task_struct-current k = ground arith
