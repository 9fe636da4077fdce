-- ===== src/Rwlock/Safety.antt =====
-- kernel/include/spinlock.h: what holds of the read-write lock in every reachable state.
use kernal.Prelude.{ℕ, ◌^◌, ◌<◌, ◌≡◌, ◌≢◌, Bool, arith}
use kernal.Rwlock.{
  RwLock, rwlock_magic, met_writer, Pc, reading, writing, panicked, Move, System, Reach,
}
use kernal.Rwlock.Move.{
  read_bad, write_bad, read_gone_bad, write_gone_bad, writer_waits, locked, count_wraps, undo,
}
use kernal.Rwlock.Count.{readers}
use kernal.Rwlock.Invariant.{Reach-Inv}

-- In every state that fewer than 2^32 threads reach from an initialised read-write lock, by the
-- read and write functions and their trylock forms in any interleaving, while a thread has the
-- lock for reading none has it for writing.
pub reader-writer :
    {n : ℕ} {l : RwLock} {s : System}
    → n < 2 ^ 32
    → Reach n l s
    → (i j : ℕ) → s.pc i ≡ reading
    → s.pc j ≢ writing
reader-writer few r i j a b = ground (arith, (Reach-Inv few r).apart i j)

-- In every state that fewer than 2^32 threads reach from an initialised read-write lock, two
-- threads that have the lock for writing are one.
pub writer-writer :
    {n : ℕ} {l : RwLock} {s : System}
    → n < 2 ^ 32
    → Reach n l s
    → (i j : ℕ) → s.pc i ≡ writing
    → s.pc j ≡ writing
    → i ≡ j
writer-writer few r i j a b = ground (arith, (Reach-Inv few r).unique i j)

-- In every state that fewer than 2^32 threads reach from an initialised read-write lock,
-- reader_count is the number of the threads that have added themselves to it and not yet taken
-- themselves off, without wrapping.
pub reader_count-readers :
    {n : ℕ} {l : RwLock} {s : System}
    → n < 2 ^ 32
    → Reach n l s
    → s.mem.reader_count ≡ readers n s.pc
reader_count-readers few r = (Reach-Inv few r).count

met_writer-going : (once : Bool) → met_writer once ≢ panicked
met_writer-going once e = ground arith

Move-going : {l l' : RwLock} {p p' : Pc} → l.magic ≡ rwlock_magic → Move l p l' p' → p' ≢ panicked
Move-going m (read_bad g) = λ _. g m
Move-going m (write_bad g) = λ _. g m
Move-going m (read_gone_bad g) = λ _. g m
Move-going m (write_gone_bad g) = λ _. g m
Move-going m (writer_waits {once} g) = met_writer-going once
Move-going m (locked {once} g) = met_writer-going once
Move-going m (count_wraps {once} g) = met_writer-going once
Move-going m (undo {once}) = met_writer-going once
Move-going m mv = λ e. ground arith

-- In no state that fewer than 2^32 threads reach from an initialised read-write lock does a step
-- of a thread panic.
pub rwlock-never_panics :
    {n : ℕ} {l : RwLock} {s : System}
    → n < 2 ^ 32
    → Reach n l s
    → (i : ℕ) {l' : RwLock} {p' : Pc} → Move s.mem (s.pc i) l' p'
    → p' ≢ panicked
rwlock-never_panics few r i mv = Move-going (Reach-Inv few r).magic mv
