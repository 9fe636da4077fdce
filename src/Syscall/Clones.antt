-- ===== src/Syscall/Clones.antt =====
-- src/kernel/main.c: sys_fork and sys_vfork against sys_clone.
use Prim.Native.Nat.{bit_or}
use kernal.Prelude.{ℕ, ◌≡◌, refl}
use kernal.Syscall.Outside.{Machine, OutsideCalls}
use kernal.Syscall.{Args, clone_vm, clone_vfork, call, call_entry, do_syscall}

-- The arguments of a clone with these flags, on the same stack.
abbrev pub flags_only : ℕ → Args
flags_only flags = record { arg0 = flags; arg1 = 0; arg2 = 0; arg3 = 0; arg4 = 0; arg5 = 0 }

module _ {S : Type 0} (O : OutsideCalls S) (fuel : ℕ) (a : Args) (m : Machine S) where
  -- do_syscall of fork and of vfork, with any arguments, is do_syscall of clone with the flags
  -- SIGCHLD and CLONE_VFORK | CLONE_VM | SIGCHLD and 0 for the stack and the two pointers.
  pub do_syscall-clone :
      (do_syscall O fuel 57 a m ≡ do_syscall O fuel 56 (flags_only O.sigchld) m)
      × (do_syscall O fuel 58 a m
          ≡ do_syscall O fuel 56 (flags_only (bit_or (bit_or clone_vfork clone_vm) O.sigchld)) m)
  unfolding do_syscall call_entry call
  do_syscall-clone = (refl, refl)
