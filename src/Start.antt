-- ===== src/Start.antt =====
-- src/kernel/main.c: the start of the kernel, `kernel_init` and `kernel_main`, and the `buddy_init` of
-- kernel/mm/buddy.c. What they print is left out.
pub mod Halts
mod Tests
use kernal.Prelude.{ℕ, zero, suc, ◌+◌, Bool, true, none, some, List, set}
use kernal.Spinlock.{Lock, spin_lock_init}
use kernal.Buddy.Init.{max_nr_zones}
use kernal.Task.Fields.{Pointer}
use kernal.Task.Outside.{Outside}
use kernal.Task.Life.{Kernel}
use kernal.Task.Fork.{Outcome, done, panic, fault, create_init_process}
use kernal.Sched.Rq.{sched_init}
use kernal.Sched.Clock.{Reading}
use kernal.Sched.Switch.{System, SchedOps, wake_up_new_task, schedule}

-- The variables of kernel/mm/buddy.c that `buddy_init` writes.
pub record Tables : Type 0 where
  pub zone_lock : Lock
  pub zones : List Pointer
  pub node_data : List Pointer

-- The kernel while it starts.
pub record Boot (S : Type 0) : Type 0 where
  pub system : System S
  pub tables : Tables
  pub init_process : Pointer  -- `init_task`
  pub kernel_initialized : Bool

-- The functions that no file defines, and what the clocks answer when the first task
-- is woken and at the first `schedule`.
pub record StartOps (S : Type 0) : Type 0 where
  pub mm_init : Boot S → Boot S
  pub ipc_init : Boot S → Boot S
  pub vfs_init : Boot S → Boot S
  pub net_init : Boot S → Boot S
  pub driver_init : Boot S → Boot S
  pub heap : Outside
  pub sched : SchedOps S
  pub at_wake : Reading
  pub at_schedule : Reading

-- How `kernel_main` ends, and where.
pub data Halt : Type 0 where
  init_panics : Halt
  init_faults : Halt
  schedule_panics : Halt
  schedule_faults : Halt
  end_panics : Halt

abbrev pub max_numnodes : ℕ
max_numnodes = 1

-- The rounds left, and i.
abbrev pub clear_loop : ℕ → ℕ → List Pointer → List Pointer
clear_loop zero i xs = xs
clear_loop (suc n) i xs = clear_loop n (i + 1) (set xs i none)

-- `set_current` of kernel/core/sched/sched.c.
abbrev pub set_current : Pointer → Kernel → Kernel
set_current p k = record k { current = p }

module _ {S : Type 0} where
  -- `sched_init` on the tasks and the run queue.
  unfoldable pub init_sched : Boot S → Boot S
  init_sched b =
      let r = sched_init (b.system.kernel, b.system.rq) in
      record b { system = record b.system { kernel = r.0; rq = r.1 } }

  abbrev pub after_schedule : Outcome (System S) → Halt
  after_schedule (done s) = end_panics
  after_schedule panic = schedule_panics
  after_schedule fault = schedule_faults

module _ {S : Type 0} (O : StartOps S) where
  open O use {mm_init, ipc_init, vfs_init, net_init, driver_init, heap, sched, at_wake, at_schedule}

  unfoldable pub buddy_init : Boot S → Boot S
  buddy_init b = record b {
    tables = record {
      zone_lock = spin_lock_init b.tables.zone_lock;
      zones = clear_loop max_nr_zones 0 b.tables.zones;
      node_data = clear_loop max_numnodes 0 b.tables.node_data;
    };
  }

  -- The calls up to the first process.
  unfoldable pub init_parts : Boot S → Boot S
  init_parts b = driver_init (net_init (vfs_init (ipc_init (init_sched (buddy_init (mm_init b))))))

  -- The rest of `kernel_init`, with the first process.
  unfoldable pub init_woken : Boot S → Outcome (ℕ × Kernel) → Outcome (Boot S)
  init_woken b (done (p, k)) = done (record b {
    system = wake_up_new_task sched at_wake p (record b.system { kernel = set_current (some p) k });
    init_process = some p;
    kernel_initialized = true;
  })
  init_woken b panic = panic
  init_woken b fault = fault

  unfoldable pub kernel_init : Boot S → Outcome (Boot S)
  unfolding init_woken init_parts
  kernel_init b = let b1 = init_parts b in init_woken b1 (create_init_process heap b1.system.kernel)

  unfoldable pub main_from : Outcome (Boot S) → Halt
  main_from (done b) = after_schedule (schedule sched at_schedule b.system)
  main_from panic = init_panics
  main_from fault = init_faults

  unfoldable pub kernel_main : Boot S → Halt
  unfolding kernel_init main_from
  kernel_main b = main_from (kernel_init b)
