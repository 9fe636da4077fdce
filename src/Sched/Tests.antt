-- ===== src/Sched/Tests.antt =====
-- kernel/core/sched/sched.c: pids around the end of their range.
use kernal.Prelude.{◌≡◌, refl}
use kernal.Sched.{alloc_pid}

wraps : alloc_pid 32767 ≡ (32767, 1)
unfolding alloc_pid
wraps = refl
