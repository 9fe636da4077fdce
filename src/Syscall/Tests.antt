-- ===== src/Syscall/Tests.antt =====
-- src/kernel/main.c: system calls, on a kernel whose clone answers its flags.
use kernal.Prelude.{ℕ, ◌-◌, ◌^◌, ◌≡◌, refl, inl, Bool, false, none, some, [], arith}
use kernal.Prelude.Int.{pos, negsuc, int_of}
use kernal.Task.Outside.{kmalloc}
use kernal.Task.New.{new_task}
use kernal.Syscall.Outside.{Machine, OutsideCalls}
use kernal.Syscall.{Args, returns, faults, runs_on, call, call_entry, do_syscall, yield_from}
use kernal.Syscall.Unknown.{Refused, do_syscall-Refused}

-- The state outside is the last address that something was copied to.
abbrev outside : OutsideCalls ℕ
outside = record {
  do_fork = λ flags sp size parent child m. (pos flags, m);
  do_exit = λ code m. m;
  do_wait = λ pid stat options usage m. (negsuc 13, m);
  do_kill = λ pid sig m. (negsuc 12, m);
  do_brk = λ brk m. (pos brk, m);
  do_mmap = λ addr len prot flags fd off m. (pos addr, m);
  do_munmap = λ addr len m. (pos 0, m);
  si_swapinfo = λ m val. val;
  copy_sysinfo = λ p val m. (0, record m { rest = p });
  copy_utsname = λ p val m. (1, m);
  set_current_state = λ state m. m;
  stack_sysinfo = λ m. record {
    totalram = 1;
    freeram = 1;
    sharedram = 1;
    bufferram = 1;
    totalswap = 1;
    freeswap = 1;
    totalhigh = 1;
    freehigh = 1;
    mem_unit = 1;
  };
  sigchld = 17;
}

no_block : (size : ℕ) (live : ℕ → Bool) (p : ℕ) → kmalloc size live ≡ some p → live p ≡ false
no_block size live p e = ground arith

abbrev idle : Machine ℕ
idle = record {
  kernel = record {
    task = λ _.
        new_task
          (record {
            kmalloc = kmalloc;
            mm_alloc = none;
            sizeof_task = 1000;
            sigchld = 17;
            sched_normal = 0;
            default_timeslice = 100;
            kmalloc-fresh = no_block;
          })
          1 2 7;
    live = λ _. false;
    double_free = false;
    next_pid = 8;
    jiffies = 5;
    current = some 1;
    task_list = [];
    mm_count = λ _. 0;
  };
  total_pages = 64;
  free_pages = 32;
  messages = [];
  rest = 0;
}

abbrev some_args : Args
some_args = record { arg0 = 300; arg1 = 2 ^ 32 - 1; arg2 = 0; arg3 = 0; arg4 = 0; arg5 = 0 }

getpid : do_syscall outside 0 39 some_args idle ≡ returns (pos 7) idle
unfolding do_syscall call_entry call new_task
getpid = refl

no_task :
    do_syscall outside 0 39 some_args
      (record idle { kernel = record idle.kernel { current = none } })
    ≡ faults
unfolding do_syscall call_entry call
no_task = refl

uname_fails : do_syscall outside 0 63 some_args idle ≡ returns (pos 11) idle
unfolding do_syscall call_entry call
uname_fails = refl

sysinfo_copies :
    do_syscall outside 0 99 some_args idle ≡ returns (pos 0) (record idle { rest = 300 })
unfolding do_syscall call_entry call
sysinfo_copies = refl

kill_negative : int_of (2 ^ 32 - 1) ≡ negsuc 0
kill_negative = refl

yield_runs_on : do_syscall outside 20 24 some_args idle ≡ runs_on
unfolding do_syscall call_entry call yield_from
yield_runs_on = refl

vfork_flags : do_syscall outside 0 58 some_args idle ≡ returns (pos 16657) idle
unfolding do_syscall call_entry call
vfork_flags = refl

do_syscall-Refused_example : Refused idle 500 (do_syscall outside 0 500 some_args idle)
do_syscall-Refused_example = do_syscall-Refused outside 0 some_args idle 500 (inl (omega arith))
