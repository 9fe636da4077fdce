-- ===== src/Spinlock/Tests.antt =====
-- kernel/include/spinlock.h: two threads on the one CPU, of which the first has the lock.
use native.Mathlib.Decide.{ℕ_discrete}
use kernal.Prelude.{ℕ, ◌≡◌, refl, true, false, arith}
use kernal.Spinlock.{
  Lock, spin_lock_init, spin_is_locked, smp_processor_id, System, pick, Reach, start, later,
}
use kernal.Spinlock.Move.{call, good, other, swap, store_cpu, store_owner}
use kernal.Spinlock.Invariant.{owns}
use kernal.Spinlock.Safety.{mutual_exclusion, Onward, locked-Onward}

abbrev blank : Lock
blank = record { lock = 7; owner_cpu = 0; owner = 0; magic = 0 }

-- Thread 0 calls `spin_lock` and returns from it; thread 1 calls it and has passed the first check.
abbrev held : (s : System) × Reach smp_processor_id blank s
unfolding spin_lock_init ℕ_discrete
held = (
  _,
  later
      (later
        (later
          (later
            (later
              (later
                (later (later start (pick 0 {caller = 100} (call {once = false})))
                  (pick 0 {caller = 100} (good refl)))
                (pick 0 {caller = 100} (other (omega arith))))
              (pick 0 {caller = 100} (swap refl)))
            (pick 0 {caller = 100} store_cpu))
          (pick 0 {caller = 100} store_owner))
        (pick 1 {caller = 200} (call {once = false})))
      (pick 1 {caller = 200} (good refl)),
)

held_locked : spin_is_locked held.0.mem ≡ true
unfolding spin_is_locked spin_lock_init ℕ_discrete
held_locked = refl

mutual_exclusion_example : ◌≡◌ {A = ℕ} 0 0
unfolding spin_lock_init ℕ_discrete
mutual_exclusion_example = mutual_exclusion held.1 0 0 refl refl

locked-Onward_example :
    (i : ℕ) × (owns (held.0.pc i) ≡ true) × Onward (smp_processor_id i) 100 held.0.mem (held.0.pc i)
unfolding spin_lock_init ℕ_discrete
locked-Onward_example = locked-Onward held.1 (omega arith) 100
