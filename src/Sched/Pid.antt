-- ===== src/Sched/Pid.antt =====
-- kernel/core/sched/sched.c: which pids `alloc_pid` gives, and when one comes back.
use kernal.Prelude.{ℕ, zero, suc, ◌+◌, ◌-◌, ◌%◌, ◌<◌, ◌≡◌, ◌≢◌, refl, arith}
use kernal.Sched.{pid_max, alloc_pid, next_pid_after}

pid_after : (n : ℕ) → next_pid_after n ≡ 1 + n % 32767
unfolding next_pid_after alloc_pid
pid_after zero = refl
pid_after (suc n) = ground (arith, pid_after n)

-- From the start, two calls of alloc_pid with fewer than PID_MAX - 1 calls from the one to the
-- other give different pids, also where next_pid wraps between them.
pub alloc_pid-fresh :
    (n d : ℕ)
    → 0 < d
    → d < pid_max - 1
    → (alloc_pid (next_pid_after (n + d))).0 ≢ (alloc_pid (next_pid_after n)).0
unfolding alloc_pid
alloc_pid-fresh n d lo hi = omega (arith, pid_after n, pid_after (n + d))

-- Every pid that alloc_pid gives, after any number of calls, lies above 0 and below PID_MAX.
alloc_pid-range :
    (n : ℕ) → (0 < (alloc_pid (next_pid_after n)).0) × ((alloc_pid (next_pid_after n)).0 < pid_max)
unfolding alloc_pid
alloc_pid-range n = (omega (arith, pid_after n), omega (arith, pid_after n))
