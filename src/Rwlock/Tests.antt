-- ===== src/Rwlock/Tests.antt =====
-- kernel/include/spinlock.h: a reader that has the lock while a writer waits for it.
use native.Mathlib.Decide.{ℕ_discrete}
use kernal.Prelude.{◌≢◌, refl, false, arith}
use kernal.Rwlock.{RwLock, rwlock_init, writing, System, pick, Reach, start, later}
use kernal.Rwlock.Move.{
  call_read, read_good, no_writer_waits, unlocked, count_up, no_writer_came, read_enter, call_write,
  write_good, mark, swap,
}
use kernal.Rwlock.Safety.{reader-writer}

abbrev blank : RwLock
blank = record { lock = 7; reader_count = 7; writer_waiting = 7; magic = 7 }

-- Thread 0 returns from `read_lock`; thread 1 is in the `while` of `write_lock`.
abbrev contended : (s : System) × Reach 2 blank s
unfolding rwlock_init ℕ_discrete
contended = (
  _,
  later
      (later
        (later
          (later
            (later
              (later
                (later
                  (later
                    (later
                      (later (later start (pick 0 (omega arith) (call_read {once = false})))
                        (pick 0 (omega arith) (read_good refl)))
                      (pick 0 (omega arith) (no_writer_waits refl)))
                    (pick 0 (omega arith) (unlocked refl)))
                  (pick 0 (omega arith) (count_up (omega arith))))
                (pick 0 (omega arith) (no_writer_came refl)))
              (pick 0 (omega arith) (read_enter refl)))
            (pick 1 (omega arith) (call_write {once = false})))
          (pick 1 (omega arith) (write_good refl)))
        (pick 1 (omega arith) mark))
      (pick 1 (omega arith) (swap refl)),
)

reader-writer_example : contended.0.pc 1 ≢ writing
unfolding rwlock_init ℕ_discrete
reader-writer_example = reader-writer (omega arith) contended.1 0 1 refl
