-- ===== src/Spinlock/Invariant.antt =====
-- Who owns the spin lock: true once the lock is initialised, and kept by every step.
use kernal.Prelude.{ℕ, ◌≡◌, ◌≢◌, refl, ◌⊎◌, inl, inr, Bool, true, false, arith}
use kernal.Spinlock.{
  Lock, spinlock_magic, no_cpu, spin_lock_init, Pc, idle, set_cpu, set_owner, inside, unlock_magic,
  unlock_owner, clear_cpu, clear_owner, release, Move, System, update, pick, Reach, start, later,
}
use kernal.Spinlock.Move.{good, swap, store_cpu, gone_bad, mine, not_mine, forget_cpu, unlock}

-- From the compare-and-swap that takes the lock to the store that releases it.
abbrev pub owns : Pc → Bool
owns set_cpu = true
owns set_owner = true
owns inside = true
owns unlock_magic = true
owns unlock_owner = true
owns clear_cpu = true
owns clear_owner = true
owns release = true
owns _ = false

-- While `owner_cpu` is the CPU of the owner.
abbrev pub named : Pc → Bool
named set_owner = true
named inside = true
named unlock_magic = true
named unlock_owner = true
named clear_cpu = true
named _ = false

named-owns : (p : Pc) → named p ≡ true → owns p ≡ true
named-owns p e = ground arith

pub record Inv (cpu : ℕ → ℕ) (l : Lock) (pc : ℕ → Pc) : Type 0 where
  pub magic : l.magic ≡ spinlock_magic
  pub free : l.lock ≡ 0 → (i : ℕ) → owns (pc i) ≡ false
  pub taken : (l.lock ≡ 0) ⊎ ((l.lock ≡ 1) × ((i : ℕ) × (owns (pc i) ≡ true)))
  pub unique : (i j : ℕ) → owns (pc i) ≡ true → owns (pc j) ≡ true → i ≡ j
  pub here : (i : ℕ) → named (pc i) ≡ true → l.owner_cpu ≡ cpu i
  pub there : (l.owner_cpu ≡ no_cpu) ⊎ ((i : ℕ) × (named (pc i) ≡ true))

Inv-init : (cpu : ℕ → ℕ) (l : Lock) → Inv cpu (spin_lock_init l) (λ _. idle)
unfolding spin_lock_init
Inv-init cpu l = record {
  magic = refl;
  free = λ e i. refl;
  taken = inl refl;
  unique = λ i j e. ground arith;
  here = λ i e. ground arith;
  there = inl refl;
}

abbrev Guard : {cpu caller : ℕ} {l l' : Lock} {p p' : Pc} → Move cpu caller l p l' p' → Type 0
Guard {l} (good _) = l.magic ≡ spinlock_magic
Guard {l} (swap _) = l.lock ≡ 0
Guard {cpu} {l} (mine _) = l.owner_cpu ≡ cpu
Guard {l} (gone_bad _) = l.magic ≢ spinlock_magic
Guard {cpu} {l} (not_mine _) = l.owner_cpu ≢ cpu
Guard _ = Unit

guard : {cpu caller : ℕ} {l l' : Lock} {p p' : Pc} (mv : Move cpu caller l p l' p') → Guard mv
guard (good g) = g
guard (swap g) = g
guard (mine g) = g
guard (gone_bad g) = g
guard (not_mine g) = g
guard _ = tt

module _ {cpu : ℕ → ℕ} {l : Lock} {pc : ℕ → Pc} (inv : Inv cpu l pc) (i : ℕ) {caller : ℕ} where
  open inv use {free, taken, unique, here, there}

  Move-magic : {p p' : Pc} {l' : Lock} → Move (cpu i) caller l p l' p' → l'.magic ≡ spinlock_magic
  Move-magic (swap g) = inv.magic
  Move-magic mv = inv.magic

  Move-unique :
      {p p' : Pc} {l' : Lock}
      → Move (cpu i) caller l p l' p'
      → pc i ≡ p
      → (a b : ℕ) → owns (update pc i p' a) ≡ true
      → owns (update pc i p' b) ≡ true
      → a ≡ b
  Move-unique (swap g) e a b qa qb = ground (arith, free g a, free g b)
  Move-unique mv e a b qa qb = ground (arith, unique a b, unique i a, unique i b)

  Move-here :
      {p p' : Pc} {l' : Lock}
      → Move (cpu i) caller l p l' p'
      → pc i ≡ p
      → (j : ℕ) → named (update pc i p' j) ≡ true
      → l'.owner_cpu ≡ cpu j
  Move-here (swap g) e j q = ground (arith, here j, free g j)
  Move-here mv e j q = ground (arith, here j, named-owns (pc j), unique i j)

  Move-free :
      {p p' : Pc} {l' : Lock}
      → Move (cpu i) caller l p l' p'
      → pc i ≡ p
      → l'.lock ≡ 0
      → (j : ℕ) → owns (update pc i p' j) ≡ false
  Move-free (swap g) e z j = absurd (omega arith)
  Move-free (unlock) e z j = ground (arith, unique i j)
  Move-free mv e z j = ground (arith, free z j)

  Move-taken :
      {p p' : Pc} {l' : Lock}
      → Move (cpu i) caller l p l' p'
      → pc i ≡ p
      → (l'.lock ≡ 0) ⊎ ((l'.lock ≡ 1) × ((j : ℕ) × (owns (update pc i p' j) ≡ true)))
  Move-taken (swap g) e = inr (refl, (i, ground arith))
  Move-taken unlock e = inl refl
  Move-taken mv e = elim taken [
    | inl z ↦ inl z
    | inr (o, (j, q)) ↦ inr (o, (j, ground (arith, guard mv, inv.magic, here i)))
  ]

  Move-there :
      {p p' : Pc} {l' : Lock}
      → Move (cpu i) caller l p l' p'
      → pc i ≡ p
      → (l'.owner_cpu ≡ no_cpu) ⊎ ((j : ℕ) × (named (update pc i p' j) ≡ true))
  Move-there store_cpu e = inr (i, ground arith)
  Move-there forget_cpu e = inl refl
  Move-there mv e = elim there [
    | inl z ↦ inl z
    | inr (j, q) ↦ inr (j, ground (arith, guard mv, inv.magic, here i))
  ]

  pub Move-Inv :
      {p' : Pc} {l' : Lock} → Move (cpu i) caller l (pc i) l' p' → Inv cpu l' (update pc i p')
  Move-Inv mv = record {
    magic = Move-magic mv;
    free = Move-free mv refl;
    taken = Move-taken mv refl;
    unique = Move-unique mv refl;
    here = Move-here mv refl;
    there = Move-there mv refl;
  }

pub Reach-Inv : {cpu : ℕ → ℕ} {l : Lock} {s : System} → Reach cpu l s → Inv cpu s.mem s.pc
Reach-Inv {cpu} {l} start = Inv-init cpu l
Reach-Inv (later r (pick i mv)) = Move-Inv (Reach-Inv r) i mv
