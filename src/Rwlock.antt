-- ===== src/Rwlock.antt =====
-- kernel/include/spinlock.h: the read-write lock, under threads that interleave.
pub mod Count
pub mod Invariant
pub mod Safety
mod Tests
use Prim.Native.Nat.{bit_and}
use kernal.Prelude.{ℕ, ◌+◌, ◌-◌, ◌%◌, ◌^◌, ◌<◌, ◌≡◌, ◌≢◌, Bool, true, false}
use kernal.Spinlock.{update}

-- `rwlock_t`, less its name, which is only printed.
pub record RwLock : Type 0 where
  pub lock : ℕ
  pub reader_count : ℕ
  pub writer_waiting : ℕ
  pub magic : ℕ

abbrev pub rwlock_magic : ℕ
rwlock_magic = 0xFACEFEED

abbrev pub rwlock_write_bias : ℕ
rwlock_write_bias = 0x01000000

pub rwlock_init : RwLock → RwLock
rwlock_init l = record { lock = 0; reader_count = 0; writer_waiting = 0; magic = rwlock_magic }

-- What `__sync_add_and_fetch` and `__sync_sub_and_fetch` of 1 leave in a u32.
abbrev pub add_one : ℕ → ℕ
add_one c = (c + 1) % 2 ^ 32

abbrev pub sub_one : ℕ → ℕ
sub_one c = (c + 2 ^ 32 - 1) % 2 ^ 32

-- Where a thread stands. `once` tells the two `trylock` functions, which give up, from the two that
-- wait.
pub data Pc : Type 0 where
  idle : Pc
  read_magic : (once : Bool) → Pc
  wait_writer : (once : Bool) → Pc  -- before it reads `writer_waiting`
  wait_lock : (once : Bool) → Pc  -- before it reads `lock`
  read_add : (once : Bool) → Pc
  again_writer : (once : Bool) → Pc  -- the second check
  again_lock : (once : Bool) → Pc
  read_undo : (once : Bool) → Pc
  reading : Pc  -- `read_lock` has returned, or `read_trylock` with 1
  read_unlock_magic : Pc
  read_sub : Pc
  write_magic : (once : Bool) → Pc
  write_mark : Pc
  write_swap : (once : Bool) → Pc
  draining : Pc  -- the `while` on `reader_count` in `write_lock`
  try_drain : Pc  -- the `if` on `reader_count` in `write_trylock`
  write_back : Pc
  write_unmark : Pc
  writing : Pc  -- `write_lock` has returned, or `write_trylock` with 1
  write_unlock_magic : Pc
  write_clear : Pc
  panicked : Pc

-- Where a thread goes on that meets a writer: `read_lock` waits, `read_trylock` returns 0.
abbrev pub met_writer : Bool → Pc
met_writer true = idle
met_writer false = wait_writer false

-- One shared access of a thread. A thread calls an unlock only where it has the lock.
pub data Move (l : RwLock) : Pc → RwLock → Pc → Type 0 where
  call_read : {once : Bool} → Move l idle l (read_magic once)
  read_good : {once : Bool} → l.magic ≡ rwlock_magic → Move l (read_magic once) l (wait_writer once)
  read_bad : {once : Bool} → l.magic ≢ rwlock_magic → Move l (read_magic once) l panicked
  writer_waits :
      {once : Bool} → l.writer_waiting ≢ 0 → Move l (wait_writer once) l (met_writer once)
  no_writer_waits :
      {once : Bool} → l.writer_waiting ≡ 0 → Move l (wait_writer once) l (wait_lock once)
  locked :
      {once : Bool}
      → bit_and l.lock rwlock_write_bias ≢ 0
      → Move l (wait_lock once) l (met_writer once)
  unlocked :
      {once : Bool}
      → bit_and l.lock rwlock_write_bias ≡ 0
      → Move l (wait_lock once) l (read_add once)
  count_up :
      {once : Bool}
      → add_one l.reader_count ≢ 0
      → Move l
          (read_add once)
          (record l { reader_count = add_one l.reader_count })
          (again_writer once)
  count_wraps :
      {once : Bool}
      → add_one l.reader_count ≡ 0
      → Move l
          (read_add once)
          (record l { reader_count = add_one l.reader_count })
          (met_writer once)
  writer_came : {once : Bool} → l.writer_waiting ≢ 0 → Move l (again_writer once) l (read_undo once)
  no_writer_came :
      {once : Bool} → l.writer_waiting ≡ 0 → Move l (again_writer once) l (again_lock once)
  lock_came :
      {once : Bool}
      → bit_and l.lock rwlock_write_bias ≢ 0
      → Move l (again_lock once) l (read_undo once)
  read_enter :
      {once : Bool} → bit_and l.lock rwlock_write_bias ≡ 0 → Move l (again_lock once) l reading
  undo :
      {once : Bool}
      → Move l
          (read_undo once)
          (record l { reader_count = sub_one l.reader_count })
          (met_writer once)
  leave_read : Move l reading l read_unlock_magic
  read_still_good : l.magic ≡ rwlock_magic → Move l read_unlock_magic l read_sub
  read_gone_bad : l.magic ≢ rwlock_magic → Move l read_unlock_magic l panicked
  count_down : Move l read_sub (record l { reader_count = sub_one l.reader_count }) idle
  call_write : {once : Bool} → Move l idle l (write_magic once)
  write_good : l.magic ≡ rwlock_magic → Move l (write_magic false) l write_mark
  try_good : l.magic ≡ rwlock_magic → Move l (write_magic true) l (write_swap true)
  write_bad : {once : Bool} → l.magic ≢ rwlock_magic → Move l (write_magic once) l panicked
  mark :
      Move l write_mark (record l { writer_waiting = add_one l.writer_waiting }) (write_swap false)
  swap : l.lock ≡ 0 → Move l (write_swap false) (record l { lock = rwlock_write_bias }) draining
  try_swap : l.lock ≡ 0 → Move l (write_swap true) (record l { lock = rwlock_write_bias }) try_drain
  lose : l.lock ≢ 0 → Move l (write_swap false) l (write_swap false)
  give_up : l.lock ≢ 0 → Move l (write_swap true) l idle
  readers_left : 0 < l.reader_count → Move l draining l draining
  drained : l.reader_count ≡ 0 → Move l draining l write_unmark
  readers_found : 0 < l.reader_count → Move l try_drain l write_back
  none_found : l.reader_count ≡ 0 → Move l try_drain l writing
  back : Move l write_back (record l { lock = 0 }) idle
  unmark : Move l write_unmark (record l { writer_waiting = sub_one l.writer_waiting }) writing
  leave_write : Move l writing l write_unlock_magic
  write_still_good : l.magic ≡ rwlock_magic → Move l write_unlock_magic l write_clear
  write_gone_bad : l.magic ≢ rwlock_magic → Move l write_unlock_magic l panicked
  clear : Move l write_clear (record l { lock = 0 }) idle

pub record System : Type 0 where
  pub mem : RwLock
  pub pc : ℕ → Pc

-- `n` threads in any order.
pub data Step (n : ℕ) (s : System) : System → Type 0 where
  pick :
      (i : ℕ) {l : RwLock} {p : Pc}
      → i < n
      → Move s.mem (s.pc i) l p
      → Step n s (record { mem = l; pc = update s.pc i p })

pub data Reach (n : ℕ) (l : RwLock) : System → Type 0 where
  start : Reach n l (record { mem = rwlock_init l; pc = λ _. idle })
  later : {s t : System} → Reach n l s → Step n s t → Reach n l t
