-- ===== src/Task/Outside.antt =====
-- What the task functions of kernel/core/sched/sched.c use of the rest of the kernel.
use kernal.Prelude.{ℕ, ◌≡◌, Bool, false, Option, none, some}

-- The heap and the constants that no file defines. `kmalloc` is given the blocks that are in use, and
-- gives one that is not.
pub record Outside : Type 0 where
  pub kmalloc : ℕ → (ℕ → Bool) → Option ℕ
  pub mm_alloc : Option ℕ
  pub sizeof_task : ℕ
  pub sigchld : ℕ
  pub sched_normal : ℕ
  pub default_timeslice : ℕ
  pub kmalloc-fresh :
      (size : ℕ) (live : ℕ → Bool) (p : ℕ) → kmalloc size live ≡ some p → live p ≡ false

-- The `kmalloc` of src/kernel/main.c.
abbrev pub kmalloc : ℕ → (ℕ → Bool) → Option ℕ
kmalloc size live = none
