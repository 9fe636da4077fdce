-- ===== src/Task/Refs.antt =====
-- kernel/core/sched/sched.c: the reference count of a task.
use kernal.Prelude.{ℕ, ◌-◌, ◌^◌, ◌<◌, ◌≡◌, ◌≢◌, false, ◌||◌, ◌&&◌, ◌==◌, if◌then◌else◌, arith}
use kernal.Task.Life.{Kernel, kfree, free_task_struct, free_stack, put_task_struct}
use kernal.Task.Copy.{IsTask}

-- What giving up one of `n` references does.
pub record IsPut (k k' : Kernel) (t s n : ℕ) : Type 0 where
  pub live : (q : ℕ) → k'.live q ≡ (if n == 1 && (q == t || q == s) then false else k.live q)
  pub usage : (k'.task t).usage ≡ n - 1
  pub others : (q : ℕ) → q ≢ t → k'.task q ≡ k.task q
  pub double_free : k'.double_free ≡ k.double_free

-- For a task in use with a stack in use and a count of references above 0 and below 2^32:
-- put_task_struct lowers the count by one, frees the task and its stack, once each, exactly when
-- the count was one, and frees nothing otherwise; no other task is changed.
pub put_task_struct-IsPut :
    (k : Kernel) (t s : ℕ)
    → IsTask k t s
    → 0 < (k.task t).usage
    → (k.task t).usage < 2 ^ 32
    → IsPut k (put_task_struct t k) t s (k.task t).usage
unfolding put_task_struct free_task_struct free_stack kfree
put_task_struct-IsPut k t s v lo hi = record {
  live = λ q. ground (arith, v.points, v.live_stack, v.live_task, v.apart);
  usage = ground arith;
  others = λ q n. ground arith;
  double_free = ground (arith, v.points, v.live_stack, v.live_task, v.apart);
}
