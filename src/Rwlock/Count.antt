-- ===== src/Rwlock/Count.antt =====
-- How many threads have added themselves to `reader_count`.
use native.Mathlib.Decide.{ℕ_discrete}
use kernal.Prelude.{ℕ, zero, suc, ◌+◌, ◌≤◌, ◌<◌, ◌≡◌, ◌≢◌, refl, ap, arith}
use kernal.Buddy.Sum.{sum_below, sum-ext, sum-le}
use kernal.Spinlock.{update}
use kernal.Rwlock.{
  Pc, idle, again_writer, again_lock, read_undo, reading, read_unlock_magic, read_sub,
}

abbrev pub counted : Pc → ℕ
counted (again_writer _) = 1
counted (again_lock _) = 1
counted (read_undo _) = 1
counted reading = 1
counted read_unlock_magic = 1
counted read_sub = 1
counted _ = 0

unfoldable pub readers : ℕ → (ℕ → Pc) → ℕ
readers n pc = sum_below n (λ j. counted (pc j))

-- Two families that differ at one index.
sum-except :
    (n i : ℕ) (f g : ℕ → ℕ)
    → i < n
    → ((j : ℕ) → i ≢ j → f j ≡ g j)
    → sum_below n f + g i ≡ sum_below n g + f i
unfolding sum_below
sum-except zero i f g h e = absurd (omega arith)
sum-except (suc n) i f g h e = elim (ℕ_discrete i n) [
  | yes q ↦ omega (arith, sum-ext n f g (λ j l. e j (omega arith)), ap f q, ap g q)
  | no q ↦ omega (arith, sum-except n i f g (omega arith) e, e n q)
]

pub readers-update :
    (n i : ℕ) (pc : ℕ → Pc) (p : Pc)
    → i < n
    → readers n (update pc i p) + counted (pc i) ≡ readers n pc + counted p
unfolding readers
readers-update n i pc p h = omega (
  arith,
  sum-except n i (λ j. counted (update pc i p j)) (λ j. counted (pc j)) h (λ j q. ground arith),
  update_here,
)
  where
    update_here : counted (update pc i p i) ≡ counted p
    update_here = ground arith

counted-le : (p : Pc) → counted p ≤ 1
counted-le p = ground arith

pub readers-le : (n : ℕ) (pc : ℕ → Pc) → readers n pc ≤ n
unfolding readers sum_below
readers-le zero pc = omega arith
readers-le (suc n) pc = omega (arith, readers-le n pc, counted-le (pc n))

pub counted-readers : (n i : ℕ) (pc : ℕ → Pc) → i < n → counted (pc i) ≤ readers n pc
unfolding readers
counted-readers n i pc h = sum-le n (λ j. counted (pc j)) i h

pub readers-idle : (n : ℕ) → readers n (λ _. idle) ≡ 0
unfolding readers sum_below
readers-idle zero = refl
readers-idle (suc n) = omega (arith, readers-idle n)
