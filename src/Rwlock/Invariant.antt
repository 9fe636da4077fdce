-- ===== src/Rwlock/Invariant.antt =====
-- Who has the read-write lock: true once the lock is initialised, and kept by every step.
use Prim.Native.Nat.{bit_and}
use native.Mathlib.Decide.{dec_lt}
use kernal.Prelude.{ℕ, ◌^◌, ◌≤◌, ◌<◌, ◌≡◌, refl, ap, ◌⊎◌, inl, inr, Bool, true, false, arith}
use kernal.Spinlock.{update}
use kernal.Rwlock.{
  RwLock, rwlock_magic, rwlock_write_bias, rwlock_init, met_writer, Pc, idle, reading,
  read_unlock_magic, read_sub, draining, try_drain, write_back, write_unmark, writing,
  write_unlock_magic, write_clear, Move, System, pick, Reach, start, later,
}
use kernal.Rwlock.Move.{
  writer_waits, locked, read_enter, count_wraps, undo, swap, try_swap, drained, none_found, back,
  clear, read_gone_bad,
}
use kernal.Rwlock.Count.{
  counted, readers, readers-update, readers-le, counted-readers, readers-idle,
}

-- Between `read_lock` and the decrement of `read_unlock`.
abbrev pub reads : Pc → Bool
reads reading = true
reads read_unlock_magic = true
reads read_sub = true
reads _ = false

-- From the compare-and-swap of a writer to the store that clears the lock.
abbrev pub owns : Pc → Bool
owns draining = true
owns try_drain = true
owns write_back = true
owns write_unmark = true
owns writing = true
owns write_unlock_magic = true
owns write_clear = true
owns _ = false

-- Once the readers have been seen to be gone.
abbrev pub writes : Pc → Bool
writes write_unmark = true
writes writing = true
writes write_unlock_magic = true
writes write_clear = true
writes _ = false

pub record Inv (n : ℕ) (l : RwLock) (pc : ℕ → Pc) : Type 0 where
  pub few : n < 2 ^ 32
  pub magic : l.magic ≡ rwlock_magic
  pub count : l.reader_count ≡ readers n pc
  pub beyond : (i : ℕ) → n ≤ i → pc i ≡ idle
  pub bits : (l.lock ≡ 0) ⊎ (l.lock ≡ rwlock_write_bias)
  pub free : l.lock ≡ 0 → (i : ℕ) → owns (pc i) ≡ false
  pub unique : (i j : ℕ) → owns (pc i) ≡ true → owns (pc j) ≡ true → i ≡ j
  pub apart : (i j : ℕ) → reads (pc i) ≡ true → writes (pc j) ≡ false

Inv-init : (n : ℕ) (l : RwLock) → n < 2 ^ 32 → Inv n (rwlock_init l) (λ _. idle)
unfolding rwlock_init
Inv-init n l few = record {
  few = few;
  magic = refl;
  count = omega (arith, readers-idle n);
  beyond = λ i e. refl;
  bits = inl refl;
  free = λ e i. refl;
  unique = λ i j e. ground arith;
  apart = λ i j e. refl;
}

reads-counted : (p : Pc) → reads p ≡ true → counted p ≡ 1
reads-counted p e = ground arith

writes-owns : (p : Pc) → writes p ≡ true → owns p ≡ true
writes-owns p e = ground arith

met_writer-counted : (once : Bool) → counted (met_writer once) ≡ 0
met_writer-counted once = ground arith

unset_free : (x : ℕ) → (x ≡ 0) ⊎ (x ≡ rwlock_write_bias) → bit_and x rwlock_write_bias ≡ 0 → x ≡ 0
unset_free x (inl e) z = e
unset_free x (inr e) z = absurd (omega (arith, z, ap (λ y. bit_and y rwlock_write_bias) e))

module _ {n : ℕ} {l : RwLock} {pc : ℕ → Pc} (inv : Inv n l pc) (i : ℕ) (lo : i < n) where
  open inv use {few, magic, count, beyond, bits, free, unique, apart}

  none_reads : l.reader_count ≡ 0 → (j : ℕ) → reads (pc j) ≡ false
  none_reads z j = elim (dec_lt j n) [
    | yes b ↦ ground (arith, reads-counted (pc j), counted-readers n j pc b)
    | no b ↦ ground (arith, beyond j (omega arith))
  ]

  Move-magic : {p p' : Pc} {l' : RwLock} → Move l p l' p' → l'.magic ≡ rwlock_magic
  Move-magic (swap g) = magic
  Move-magic mv = magic

  idle_count : (p : Pc) → counted (pc i) ≡ counted p → l.reader_count ≡ readers n (update pc i p)
  idle_count p e = omega (arith, readers-update n i pc p lo)

  Move-count :
      {p p' : Pc} {l' : RwLock}
      → Move l p l' p'
      → pc i ≡ p
      → l'.reader_count ≡ readers n (update pc i p')
  Move-count (writer_waits {once} g) e =
      idle_count (met_writer once) (omega (arith, ap counted e, met_writer-counted once))
  Move-count (locked {once} g) e =
      idle_count (met_writer once) (omega (arith, ap counted e, met_writer-counted once))
  Move-count (count_wraps g) e = absurd (
      omega
        (arith, readers-update n i pc reading lo, ap counted e, readers-le n (update pc i reading)))
  Move-count (undo {once}) e = omega (
    arith,
    readers-update n i pc (met_writer once) lo,
    ap counted e,
    met_writer-counted once,
    readers-le n pc,
  )
  Move-count (read_gone_bad g) e = absurd (g magic)
  Move-count {p'} mv e = omega (
    arith,
    readers-update n i pc p' lo,
    ap counted e,
    readers-le n (update pc i p'),
    readers-le n pc,
  )

  Move-unique :
      {p p' : Pc} {l' : RwLock}
      → Move l p l' p'
      → pc i ≡ p
      → (a b : ℕ) → owns (update pc i p' a) ≡ true
      → owns (update pc i p' b) ≡ true
      → a ≡ b
  Move-unique (swap g) e a b qa qb = ground (arith, free g a, free g b)
  Move-unique (try_swap g) e a b qa qb = ground (arith, free g a, free g b)
  Move-unique mv e a b qa qb = ground (arith, unique a b, unique i a, unique i b)

  Move-free :
      {p p' : Pc} {l' : RwLock}
      → Move l p l' p'
      → pc i ≡ p
      → l'.lock ≡ 0
      → (j : ℕ) → owns (update pc i p' j) ≡ false
  Move-free (swap g) e z j = absurd (omega arith)
  Move-free (try_swap g) e z j = absurd (omega arith)
  Move-free back e z j = ground (arith, unique i j)
  Move-free clear e z j = ground (arith, unique i j)
  Move-free mv e z j = ground (arith, free z j, free z i)

  Move-bits :
      {p p' : Pc} {l' : RwLock} → Move l p l' p' → (l'.lock ≡ 0) ⊎ (l'.lock ≡ rwlock_write_bias)
  Move-bits (swap g) = inr refl
  Move-bits (try_swap g) = inr refl
  Move-bits back = inl refl
  Move-bits clear = inl refl
  Move-bits mv = bits

  Move-apart :
      {p p' : Pc} {l' : RwLock}
      → Move l p l' p'
      → pc i ≡ p
      → (a b : ℕ) → reads (update pc i p' a) ≡ true
      → writes (update pc i p' b) ≡ false
  Move-apart (read_enter g) e a b q =
      ground (arith, free (unset_free l.lock bits g) b, writes-owns (pc b))
  Move-apart (drained g) e a b q = ground (arith, none_reads g a)
  Move-apart (none_found g) e a b q = ground (arith, none_reads g a)
  Move-apart mv e a b q = ground (arith, apart a b, apart a i, apart i b)

  pub Move-Inv : {p' : Pc} {l' : RwLock} → Move l (pc i) l' p' → Inv n l' (update pc i p')
  Move-Inv mv = record {
    few = few;
    magic = Move-magic mv;
    count = Move-count mv refl;
    beyond = λ j h. ground (arith, beyond j h);
    bits = Move-bits mv;
    free = Move-free mv refl;
    unique = Move-unique mv refl;
    apart = Move-apart mv refl;
  }

pub Reach-Inv : {n : ℕ} {l : RwLock} {s : System} → n < 2 ^ 32 → Reach n l s → Inv n s.mem s.pc
Reach-Inv {n} {l} few start = Inv-init n l few
Reach-Inv few (later r (pick i lo mv)) = Move-Inv (Reach-Inv few r) i lo mv
