-- ===== src/Sched.antt =====
-- kernel/core/sched/sched.c: the numbers that tasks get.
pub mod Pid
pub mod Rq
pub mod Clock
pub mod Switch
pub mod Ticks
pub mod Lazy
pub mod Choice
pub mod Scheduled
mod Tests
pub mod Samples
mod SwitchTests
use kernal.Prelude.{ℕ, zero, suc, ◌+◌, leb, if◌then◌else◌}

abbrev pub pid_max : ℕ
pid_max = 32768

-- The pid, and `next_pid` after the call.
pub alloc_pid : ℕ → ℕ × ℕ
alloc_pid next_pid = (next_pid, if leb pid_max (next_pid + 1) then 1 else next_pid + 1)

-- `next_pid` after `n` calls, from the value that it starts with.
pub next_pid_after : ℕ → ℕ
next_pid_after zero = 1
next_pid_after (suc n) = (alloc_pid (next_pid_after n)).1
