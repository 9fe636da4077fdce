-- ===== src/Syscall.antt =====
-- src/kernel/main.c: the table of the system calls, `do_syscall`, and the calls themselves.
pub mod Outside
pub mod Unknown
pub mod Clones
mod Tests
use Prim.Native.Nat.{bit_or}
use kernal.Prelude.{
  ℕ, zero, suc, ◌+◌, ◌-◌, ◌%◌, ◌^◌, Bool, Option, none, some, List, [], ◌∷◌, ◌++◌, ◌==◌, leb, ltb,
  if◌then◌else◌,
}
use kernal.Prelude.Int.{ℤ, pos, negsuc, minus, int_of}
use kernal.Task.Fields.{Pointer}
use kernal.Task.New.{task_running}
use kernal.Syscall.Outside.{Machine, invalid, unimplemented, Sysinfo, Utsname, OutsideCalls}

-- The codes of kernel/include/types.h.
abbrev pub efault : ℤ
efault = negsuc 10

abbrev pub enosys : ℤ
enosys = negsuc 26

-- The functions of the table.
pub data SysFunction : Type 0 where
  sys_read : SysFunction
  sys_write : SysFunction
  sys_open : SysFunction
  sys_close : SysFunction
  sys_getpid : SysFunction
  sys_clone : SysFunction
  sys_fork : SysFunction
  sys_vfork : SysFunction
  sys_execve : SysFunction
  sys_exit : SysFunction
  sys_wait4 : SysFunction
  sys_kill : SysFunction
  sys_sched_yield : SysFunction
  sys_brk : SysFunction
  sys_mmap : SysFunction
  sys_munmap : SysFunction
  sys_sysinfo : SysFunction
  sys_uname : SysFunction

abbrev pub nr_syscalls : ℕ
nr_syscalls = 101

-- The initialisers, by number; an entry without one is NULL.
abbrev pub initialisers : List (ℕ × SysFunction)
initialisers =
    (0, sys_read)
    ∷ (1, sys_write)
    ∷ (2, sys_open)
    ∷ (3, sys_close)
    ∷ (39, sys_getpid)
    ∷ (56, sys_clone)
    ∷ (57, sys_fork)
    ∷ (58, sys_vfork)
    ∷ (59, sys_execve)
    ∷ (60, sys_exit)
    ∷ (61, sys_wait4)
    ∷ (62, sys_kill)
    ∷ (24, sys_sched_yield)
    ∷ (12, sys_brk)
    ∷ (9, sys_mmap)
    ∷ (11, sys_munmap)
    ∷ (99, sys_sysinfo)
    ∷ (63, sys_uname)
    ∷ []

abbrev pub find : List (ℕ × SysFunction) → ℕ → Option SysFunction
find [] nr = none
find (e ∷ es) nr = if e.0 == nr then some e.1 else find es nr

abbrev pub sys_call_table : ℕ → Option SysFunction
sys_call_table nr = find initialisers nr

pub record Args : Type 0 where
  pub arg0 : ℕ
  pub arg1 : ℕ
  pub arg2 : ℕ
  pub arg3 : ℕ
  pub arg4 : ℕ
  pub arg5 : ℕ

-- How a call ends: with its value, in an access to NULL, or not within the fuel.
pub data Answer (S : Type 0) : Type 0 where
  returns : ℤ → Machine S → Answer S
  faults : Answer S
  runs_on : Answer S

abbrev pub clone_vm : ℕ
clone_vm = 256

abbrev pub clone_vfork : ℕ
clone_vfork = 16384

-- "MicroKernel", "localhost", "0.1.0", "1", "x86_64" and "localdomain"
abbrev pub kernel_info : Utsname
kernel_info = record {
  sysname = 77 ∷ 105 ∷ 99 ∷ 114 ∷ 111 ∷ 75 ∷ 101 ∷ 114 ∷ 110 ∷ 101 ∷ 108 ∷ [];
  nodename = 108 ∷ 111 ∷ 99 ∷ 97 ∷ 108 ∷ 104 ∷ 111 ∷ 115 ∷ 116 ∷ [];
  release = 48 ∷ 46 ∷ 49 ∷ 46 ∷ 48 ∷ [];
  version = 49 ∷ [];
  machine = 120 ∷ 56 ∷ 54 ∷ 95 ∷ 54 ∷ 52 ∷ [];
  domainname = 108 ∷ 111 ∷ 99 ∷ 97 ∷ 108 ∷ 100 ∷ 111 ∷ 109 ∷ 97 ∷ 105 ∷ 110 ∷ [];
}

module _ {S : Type 0} where
  abbrev pub getpid_of : Pointer → Machine S → Answer S
  getpid_of none m = faults
  getpid_of (some c) m = returns (pos (m.kernel.task c).ids.pid) m

  abbrev pub reply : ℤ × Machine S → Answer S
  reply r = returns r.0 r.1

  -- The bytes that `copy_to_user` left, and the value of the call.
  abbrev pub copy_answer : ℕ × Machine S → Answer S
  copy_answer r = if r.0 == 0 then returns (pos 0) r.1 else returns (minus efault) r.1

  abbrev pub si_meminfo : Machine S → Sysinfo → Sysinfo
  si_meminfo m val = record val {
    totalram = m.total_pages;
    freeram = m.free_pages;
    sharedram = 0;
    bufferram = 0;
    totalswap = 0;
    freeswap = 0;
    totalhigh = 0;
    freehigh = 0;
    mem_unit = 4096;
  }

module _ {S : Type 0} (O : OutsideCalls S) where
  -- `sys_sched_yield` calls the `yield` of kernel/core/sched/sched.c, that sets the state of the
  -- current task and calls `sys_sched_yield`. The fuel bounds the calls.
  unfoldable pub yield_from : ℕ → Machine S → Answer S
  yield_from zero m = runs_on
  yield_from (suc fuel) m = yield_from fuel (O.set_current_state task_running m)

  abbrev pub sysinfo_of : ℕ → Machine S → Answer S
  sysinfo_of info m =
      copy_answer (O.copy_sysinfo info (O.si_swapinfo m (si_meminfo m (O.stack_sysinfo m))) m)

  -- The arguments that a function does not have are not read.
  unfoldable pub call : ℕ → SysFunction → Args → Machine S → Answer S
  unfolding yield_from
  call fuel sys_read a m = returns (minus enosys) m
  call fuel sys_write a m = returns (minus enosys) m
  call fuel sys_open a m = returns (minus enosys) m
  call fuel sys_close a m = returns (minus enosys) m
  call fuel sys_getpid a m = getpid_of m.kernel.current m
  call fuel sys_clone a m = reply (O.do_fork a.arg0 a.arg1 0 a.arg2 a.arg3 m)
  call fuel sys_fork a m = reply (O.do_fork O.sigchld 0 0 0 0 m)
  call fuel sys_vfork a m =
      reply (O.do_fork (bit_or (bit_or clone_vfork clone_vm) O.sigchld) 0 0 0 0 m)
  call fuel sys_execve a m = returns (minus enosys) m
  call fuel sys_exit a m = returns (pos 0) (O.do_exit (int_of a.arg0) m)
  call fuel sys_wait4 a m = reply (O.do_wait (int_of a.arg0) a.arg1 (int_of a.arg2) a.arg3 m)
  call fuel sys_kill a m = reply (O.do_kill (int_of a.arg0) (int_of a.arg1) m)
  call fuel sys_sched_yield a m = yield_from fuel m
  call fuel sys_brk a m = reply (O.do_brk a.arg0 m)
  call fuel sys_mmap a m = reply (O.do_mmap a.arg0 a.arg1 a.arg2 a.arg3 a.arg4 a.arg5 m)
  call fuel sys_munmap a m = reply (O.do_munmap a.arg0 a.arg1 m)
  call fuel sys_sysinfo a m = sysinfo_of a.arg0 m
  call fuel sys_uname a m = copy_answer (O.copy_utsname a.arg0 kernel_info m)

  unfoldable pub call_entry : ℕ → ℕ → Option SysFunction → Args → Machine S → Answer S
  unfolding call
  call_entry fuel nr none a m =
      returns (minus enosys) (record m { messages = m.messages ++ unimplemented nr ∷ [] })
  call_entry fuel nr (some f) a m = call fuel f a m

  unfoldable pub do_syscall : ℕ → ℕ → Args → Machine S → Answer S
  unfolding call_entry
  do_syscall fuel nr a m =
      if leb nr_syscalls nr
      then returns (minus enosys) (record m { messages = m.messages ++ invalid nr ∷ [] })
      else call_entry fuel nr (sys_call_table nr) a m
