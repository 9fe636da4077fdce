-- ===== src/Spinlock/Safety.antt =====
-- kernel/include/spinlock.h: what holds of the spin lock in every reachable state.
use kernal.Prelude.{ℕ, refl, ◌<◌, ◌≡◌, ◌≢◌, ◌⊎◌, inl, inr, true, false, arith}
use kernal.Spinlock.{
  Lock, no_cpu, spinlock_magic, Pc, idle, lock_owner, set_cpu, set_owner, inside, unlock_magic,
  unlock_owner, clear_cpu, clear_owner, release, panicked, Move, System, Reach,
}
use kernal.Spinlock.Move.{
  bad, recursive, gone_bad, not_mine, store_cpu, store_owner, leave, still_good, mine, forget_cpu,
  forget_owner, unlock,
}
use kernal.Spinlock.Invariant.{owns, named, Inv, Reach-Inv}

-- In every state that threads reach from an initialised spin lock, by spin_lock, spin_trylock and
-- spin_unlock in any interleaving, two threads that have the lock are one.
pub mutual_exclusion :
    {cpu : ℕ → ℕ} {l : Lock} {s : System}
    → Reach cpu l s
    → (i j : ℕ) → s.pc i ≡ inside
    → s.pc j ≡ inside
    → i ≡ j
mutual_exclusion r i j a b = (Reach-Inv r).unique i j (ground arith) (ground arith)

-- Why a thread panics: its CPU is that of the thread that has the lock.
panic_cause :
    {cpu : ℕ → ℕ} {l l' : Lock} {pc : ℕ → Pc} {p p' : Pc}
    → Inv cpu l pc
    → (i : ℕ) → cpu i ≢ no_cpu
    → {caller : ℕ} → Move (cpu i) caller l p l' p'
    → pc i ≡ p
    → p' ≡ panicked
    → (j : ℕ) × (named (pc j) ≡ true)
      × (cpu j ≡ cpu i)
      × ((p ≡ lock_owner true) ⊎ (p ≡ lock_owner false))
panic_cause inv i n (recursive {once = true} g) e q = elim inv.there [
  | inl z ↦ absurd (omega arith)
  | inr (j, k) ↦ (j, k, omega (arith, inv.here j k), inl refl)
]
panic_cause inv i n (recursive {once = false} g) e q = elim inv.there [
  | inl z ↦ absurd (omega arith)
  | inr (j, k) ↦ (j, k, omega (arith, inv.here j k), inr refl)
]
panic_cause inv i n (bad g) e q = absurd (ground (arith, inv.magic))
panic_cause inv i n (gone_bad g) e q = absurd (ground (arith, inv.magic))
panic_cause inv i n (not_mine g) e q = absurd (ground (arith, inv.here i))
panic_cause inv i n mv e q = absurd (ground arith)

-- In every reachable state, a step in which a thread panics, on a CPU that is not the value for no
-- CPU, is the recursion check of spin_lock or spin_trylock, and some thread that is between its
-- store of owner_cpu and the store that clears it runs on the same CPU. No other check panics.
pub panic-recursive :
    {cpu : ℕ → ℕ} {l : Lock} {s : System}
    → Reach cpu l s
    → (i : ℕ) → cpu i ≢ no_cpu
    → {caller : ℕ} {l' : Lock} → Move (cpu i) caller s.mem (s.pc i) l' panicked
    → (j : ℕ) × (named (s.pc j) ≡ true)
      × (cpu j ≡ cpu i)
      × ((s.pc i ≡ lock_owner true) ⊎ (s.pc i ≡ lock_owner false))
panic-recursive r i n mv = panic_cause (Reach-Inv r) i n mv refl refl

-- How many steps an owner is from the end of `spin_unlock`.
abbrev pub steps_left : Pc → ℕ
steps_left set_cpu = 8
steps_left set_owner = 7
steps_left inside = 6
steps_left unlock_magic = 5
steps_left unlock_owner = 4
steps_left clear_cpu = 3
steps_left clear_owner = 2
steps_left release = 1
steps_left _ = 0

-- A step that brings an owner nearer to the release, or is the release.
abbrev pub Onward : ℕ → ℕ → Lock → Pc → Type 0
Onward cpu caller l p =
    (l' : Lock) × (p' : Pc) × Move cpu caller l p l' p'
    × (((owns p' ≡ true) × (steps_left p' < steps_left p)) ⊎ ((l'.lock ≡ 0) × (p' ≡ idle)))

owner-Onward :
    {cpu caller : ℕ} {l : Lock} (p : Pc)
    → owns p ≡ true
    → l.magic ≡ spinlock_magic
    → (named p ≡ true → l.owner_cpu ≡ cpu)
    → Onward cpu caller l p
owner-Onward set_cpu o m c = (_, _, store_cpu, inl (refl, omega arith))
owner-Onward set_owner o m c = (_, _, store_owner, inl (refl, omega arith))
owner-Onward inside o m c = (_, _, leave, inl (refl, omega arith))
owner-Onward unlock_magic o m c = (_, _, still_good m, inl (refl, omega arith))
owner-Onward unlock_owner o m c = (_, _, mine (c refl), inl (refl, omega arith))
owner-Onward clear_cpu o m c = (_, _, forget_cpu, inl (refl, omega arith))
owner-Onward clear_owner o m c = (_, _, forget_owner, inl (refl, omega arith))
owner-Onward release o m c = (_, _, unlock, inr (refl, refl))
owner-Onward p o m c = absurd (ground arith)

-- In every reachable state where the lock word is not 0, some thread owns the lock, and it has a
-- step that does not panic and either brings it nearer to the end of spin_unlock or sets the lock
-- word to 0.
pub locked-Onward :
    {cpu : ℕ → ℕ} {l : Lock} {s : System}
    → Reach cpu l s
    → s.mem.lock ≢ 0
    → (caller : ℕ) → (i : ℕ) × (owns (s.pc i) ≡ true) × Onward (cpu i) caller s.mem (s.pc i)
locked-Onward {s} r n caller =
    let v = Reach-Inv r in
    elim v.taken [
      | inl z ↦ absurd (n z)
      | inr (_, (i, o)) ↦ (i, o, owner-Onward (s.pc i) o v.magic (v.here i))
    ]
