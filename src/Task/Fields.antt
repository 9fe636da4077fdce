-- ===== src/Task/Fields.antt =====
-- kernel/include/sched.h: `struct task_struct`, its fields in groups. A pointer is an address, none
-- for NULL; the head of a list is the sequence of its entries.
use kernal.Prelude.{ℕ, Bool, Option, List}
use kernal.Prelude.Int.{ℤ}
use kernal.Spinlock.{Lock}

abbrev pub Pointer : Type 0
Pointer = Option ℕ

pub record Ids : Type 0 where
  pub pid : ℕ
  pub tgid : ℕ
  pub ppid : ℕ
  pub pgrp : ℕ
  pub session : ℕ

pub record Creds : Type 0 where
  pub uid : ℕ
  pub gid : ℕ
  pub euid : ℕ
  pub egid : ℕ
  pub suid : ℕ
  pub sgid : ℕ
  pub fsuid : ℕ
  pub fsgid : ℕ

pub record Prios : Type 0 where
  pub prio : ℕ
  pub static_prio : ℕ
  pub normal_prio : ℕ
  pub policy : ℕ
  pub cpus_allowed : ℕ
  pub nr_cpus_allowed : ℕ

pub record LoadWeight : Type 0 where
  pub weight : ℕ
  pub inv_weight : ℕ

-- `on_rq` is used by sched_fair.c, and is not declared.
pub record SchedEntity : Type 0 where
  pub load : LoadWeight
  pub exec_start : ℕ
  pub sum_exec_runtime : ℕ
  pub vruntime : ℕ
  pub prev_sum_exec_runtime : ℕ
  pub nr_migrations : ℕ
  pub on_rq : Bool

pub record SchedRtEntity : Type 0 where
  pub run_list : List ℕ
  pub timeout : ℕ
  pub watchdog_stamp : ℕ
  pub time_slice : ℕ
  pub back : Pointer
  pub parent : Pointer
  pub rt_rq : Pointer
  pub my_q : Pointer

pub record Family : Type 0 where
  pub real_parent : Pointer
  pub parent : Pointer
  pub children : List ℕ
  pub sibling : List ℕ
  pub group_leader : Pointer

pub record Space : Type 0 where
  pub mm : Pointer
  pub active_mm : Pointer
  pub fs : Pointer
  pub files : Pointer
  pub signal : Pointer
  pub sighand : Pointer
  pub blocked : ℕ
  pub real_blocked : ℕ
  pub saved_sigmask : ℕ

pub record Times : Type 0 where
  pub utime : ℕ
  pub stime : ℕ
  pub gtime : ℕ
  pub start_time : ℕ
  pub real_start_time : ℕ
  pub min_flt : ℕ
  pub maj_flt : ℕ
  pub nvcsw : ℕ
  pub nivcsw : ℕ

pub record Marks : Type 0 where
  pub personality : ℕ
  pub did_exec : ℕ
  pub in_execve : ℕ
  pub in_iowait : ℕ
  pub no_new_privs : ℕ
  pub sched_reset_on_fork : ℕ
  pub sched_contributes_to_load : ℕ
  pub sched_migrated : ℕ
  pub preempt_count : ℕ

pub record Hooks : Type 0 where
  pub thread_fn : Pointer
  pub thread_data : Pointer
  pub nsproxy : Pointer
  pub audit_context : Pointer
  pub perf_event_ctxp : Pointer
  pub sched_task_group : Pointer
  pub cgroups : Pointer
  pub ptraced : List ℕ
  pub ptrace_entry : List ℕ

pub record Debug : Type 0 where
  pub security : Pointer
  pub trace : ℕ
  pub trace_recursion : ℕ
  pub delays : Pointer
  pub make_it_fail : ℕ
  pub scm_work_list : Pointer

pub record Attached : Type 0 where
  pub wait_chldexit : List ℕ
  pub task_exit_notifier : Pointer
  pub stats : Pointer
  pub mempolicy : Pointer
  pub il_next : ℕ
  pub pref_node_fork : ℕ
  pub bio_list : Pointer
  pub plug : Pointer
  pub blocked_on : Pointer
  pub tracer : Pointer
  pub socket : Pointer
  pub net_ns : Pointer

pub record Place : Type 0 where
  pub last_cpu : ℤ
  pub wake_cpu : ℤ
  pub migrate_disable : ℕ
  pub rcu_read_lock_nesting : ℕ
  pub rcu_read_unlock_special : ℕ
  pub rcu_blocked_node : Pointer
  pub rcu_tasks_holdout_list : List ℕ
  pub rcu_tasks_holdout : ℕ
  pub rcu_tasks_idle_cpu : ℤ

pub record SchedInfo : Type 0 where
  pub pcount : ℕ
  pub run_delay : ℕ
  pub last_arrival : ℕ
  pub last_queued : ℕ
  pub pcnt : ℕ

pub record Task : Type 0 where
  pub state : ℕ
  pub exit_state : ℕ
  pub exit_code : ℕ
  pub exit_signal : ℕ
  pub flags : ℕ
  pub ptrace : ℕ
  pub ids : Ids
  pub creds : Creds
  pub prios : Prios
  pub se : SchedEntity
  pub rt : SchedRtEntity
  pub family : Family
  pub on_tree : Bool  -- whether `run_node` is in a tree
  pub space : Space
  pub stack : Pointer
  pub stack_size : ℕ
  pub regs : Pointer
  pub times : Times
  pub comm : List ℕ
  pub hooks : Hooks
  pub alloc_lock : Lock
  pub marks : Marks
  pub debug : Debug
  pub usage : ℕ
  pub attached : Attached
  pub sched_info : SchedInfo
  pub place : Place
