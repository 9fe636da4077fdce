-- ===== src/Spinlock.antt =====
-- kernel/include/spinlock.h: the spin lock, taken and released by threads that interleave.
pub mod Invariant
pub mod Safety
mod Tests
use native.Mathlib.Decide.{ℕ_discrete}
use mathlib.Core.Logic.{ite}
use kernal.Prelude.{ℕ, ◌<◌, ◌≡◌, ◌≢◌, Bool, true, false, ◌==◌}

-- `spinlock_t`, less its name, which is only printed. `owner` is an address, 0 for NULL.
pub record Lock : Type 0 where
  pub lock : ℕ
  pub owner_cpu : ℕ
  pub owner : ℕ
  pub magic : ℕ

abbrev pub spinlock_magic : ℕ
spinlock_magic = 0xDEADBEEF

abbrev pub spinlock_unlocked : ℕ
spinlock_unlocked = 0

abbrev pub spinlock_locked : ℕ
spinlock_locked = 1

-- The value of `owner_cpu` while no CPU owns the lock.
abbrev pub no_cpu : ℕ
no_cpu = 0xFFFFFFFF

pub spin_lock_init : Lock → Lock
spin_lock_init l = record {
  lock = spinlock_unlocked;
  owner_cpu = no_cpu;
  owner = 0;
  magic = spinlock_magic;
}

pub spin_is_locked : Lock → Bool
spin_is_locked l = l.lock == spinlock_locked

-- Where a thread stands. `once` tells `spin_trylock` from `spin_lock`, whose statements up to the
-- compare-and-swap are the same.
pub data Pc : Type 0 where
  idle : Pc
  lock_magic : (once : Bool) → Pc
  lock_owner : (once : Bool) → Pc
  try_swap : (once : Bool) → Pc
  spinning : Pc  -- the inner `while` of `spin_lock`
  set_cpu : Pc
  set_owner : Pc
  inside : Pc  -- `spin_lock` has returned, or `spin_trylock` with 1
  unlock_magic : Pc  -- start of `spin_unlock`
  unlock_owner : Pc
  clear_cpu : Pc
  clear_owner : Pc
  release : Pc
  panicked : Pc

-- One shared access of one thread on the CPU `cpu`, called from the address `caller`. A thread
-- calls `spin_unlock` only where it has the lock.
pub data Move (cpu caller : ℕ) (l : Lock) : Pc → Lock → Pc → Type 0 where
  call : {once : Bool} → Move cpu caller l idle l (lock_magic once)
  good :
      {once : Bool}
      → l.magic ≡ spinlock_magic
      → Move cpu caller l (lock_magic once) l (lock_owner once)
  bad : {once : Bool} → l.magic ≢ spinlock_magic → Move cpu caller l (lock_magic once) l panicked
  other : {once : Bool} → l.owner_cpu ≢ cpu → Move cpu caller l (lock_owner once) l (try_swap once)
  recursive : {once : Bool} → l.owner_cpu ≡ cpu → Move cpu caller l (lock_owner once) l panicked
  swap :
      {once : Bool}
      → l.lock ≡ spinlock_unlocked
      → Move cpu caller l (try_swap once) (record l { lock = spinlock_locked }) set_cpu
  lose : l.lock ≢ spinlock_unlocked → Move cpu caller l (try_swap false) l spinning
  give_up : l.lock ≢ spinlock_unlocked → Move cpu caller l (try_swap true) l idle
  relax : l.lock ≡ spinlock_locked → Move cpu caller l spinning l spinning
  again : l.lock ≢ spinlock_locked → Move cpu caller l spinning l (try_swap false)
  store_cpu : Move cpu caller l set_cpu (record l { owner_cpu = cpu }) set_owner
  store_owner : Move cpu caller l set_owner (record l { owner = caller }) inside
  leave : Move cpu caller l inside l unlock_magic
  still_good : l.magic ≡ spinlock_magic → Move cpu caller l unlock_magic l unlock_owner
  gone_bad : l.magic ≢ spinlock_magic → Move cpu caller l unlock_magic l panicked
  mine : l.owner_cpu ≡ cpu → Move cpu caller l unlock_owner l clear_cpu
  not_mine : l.owner_cpu ≢ cpu → Move cpu caller l unlock_owner l panicked
  forget_cpu : Move cpu caller l clear_cpu (record l { owner_cpu = no_cpu }) clear_owner
  forget_owner : Move cpu caller l clear_owner (record l { owner = 0 }) release
  unlock : Move cpu caller l release (record l { lock = spinlock_unlocked }) idle

pub record System : Type 0 where
  pub mem : Lock
  pub pc : ℕ → Pc

abbrev pub update {ℓ} : {A : Type ℓ} → (ℕ → A) → ℕ → A → ℕ → A
update f i a j = ite (ℕ_discrete i j) a (f j)

-- What `smp_processor_id` answers on the kernel's one CPU.
abbrev pub smp_processor_id : ℕ → ℕ
smp_processor_id thread = 0

-- Threads in any order; `cpu` gives the CPU that a thread runs on.
pub data Step (cpu : ℕ → ℕ) (s : System) : System → Type 0 where
  pick :
      (i : ℕ) {caller : ℕ} {l : Lock} {p : Pc}
      → Move (cpu i) caller s.mem (s.pc i) l p
      → Step cpu s (record { mem = l; pc = update s.pc i p })

pub data Reach (cpu : ℕ → ℕ) (l : Lock) : System → Type 0 where
  start : Reach cpu l (record { mem = spin_lock_init l; pc = λ _. idle })
  later : {s t : System} → Reach cpu l s → Step cpu s t → Reach cpu l t
