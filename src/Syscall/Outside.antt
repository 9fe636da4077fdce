-- ===== src/Syscall/Outside.antt =====
-- What the system calls of src/kernel/main.c use of the rest of the kernel.
use kernal.Prelude.{ℕ, List}
use kernal.Prelude.Int.{ℤ}
use kernal.Task.Life.{Kernel}

-- The lines that `do_syscall` prints.
pub data Message : Type 0 where
  invalid : ℕ → Message
  unimplemented : ℕ → Message

-- The tasks, the counts of pages of kernel/mm/buddy.c, what is printed, and the state of the
-- functions that are not in the sources.
pub record Machine (S : Type 0) : Type 0 where
  pub kernel : Kernel
  pub total_pages : ℕ
  pub free_pages : ℕ
  pub messages : List Message
  pub rest : S

-- `struct sysinfo`, as far as `si_meminfo` writes it.
pub record Sysinfo : Type 0 where
  pub totalram : ℕ
  pub freeram : ℕ
  pub sharedram : ℕ
  pub bufferram : ℕ
  pub totalswap : ℕ
  pub freeswap : ℕ
  pub totalhigh : ℕ
  pub freehigh : ℕ
  pub mem_unit : ℕ

-- `struct utsname`: its strings, without the zero.
pub record Utsname : Type 0 where
  pub sysname : List ℕ
  pub nodename : List ℕ
  pub release : List ℕ
  pub version : List ℕ
  pub machine : List ℕ
  pub domainname : List ℕ

-- A pointer of the user is an address, 0 for NULL. `copy_to_user` answers the bytes that it left.
-- `stack_sysinfo` is what the stack holds where `val` comes to stand.
pub record OutsideCalls (S : Type 0) : Type 0 where
  pub do_fork : ℕ → ℕ → ℕ → ℕ → ℕ → Machine S → ℤ × Machine S
  pub do_exit : ℤ → Machine S → Machine S
  pub do_wait : ℤ → ℕ → ℤ → ℕ → Machine S → ℤ × Machine S
  pub do_kill : ℤ → ℤ → Machine S → ℤ × Machine S
  pub do_brk : ℕ → Machine S → ℤ × Machine S
  pub do_mmap : ℕ → ℕ → ℕ → ℕ → ℕ → ℕ → Machine S → ℤ × Machine S
  pub do_munmap : ℕ → ℕ → Machine S → ℤ × Machine S
  pub si_swapinfo : Machine S → Sysinfo → Sysinfo
  pub copy_sysinfo : ℕ → Sysinfo → Machine S → ℕ × Machine S
  pub copy_utsname : ℕ → Utsname → Machine S → ℕ × Machine S
  pub set_current_state : ℕ → Machine S → Machine S
  pub stack_sysinfo : Machine S → Sysinfo
  pub sigchld : ℕ
