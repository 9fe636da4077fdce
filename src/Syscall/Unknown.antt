-- ===== src/Syscall/Unknown.antt =====
-- src/kernel/main.c: the numbers that `do_syscall` has no function for, and the functions that only
-- say so.
use kernal.Prelude.{ℕ, ◌<◌, ◌≤◌, ◌≡◌, refl, ◌⊎◌, inl, inr, none, [], ◌∷◌, ◌++◌, arith}
use kernal.Prelude.Int.{pos}
use kernal.Syscall.Outside.{Message, Machine, invalid, unimplemented, OutsideCalls}
use kernal.Syscall.{
  sys_call_table, Args, Answer, returns, call, call_entry, do_syscall, nr_syscalls,
}

-- The ranges between the numbers of the table.
abbrev pub IsUnknown : ℕ → Type 0
IsUnknown nr =
    ((4 ≤ nr) × (nr < 9))
    ⊎ ((nr ≡ 10)
        ⊎ (((13 ≤ nr) × (nr < 24))
            ⊎ (((25 ≤ nr) × (nr < 39))
                ⊎ (((40 ≤ nr) × (nr < 56)) ⊎ (((64 ≤ nr) × (nr < 99)) ⊎ (nr ≡ 100))))))

table_none : (nr : ℕ) → IsUnknown nr → sys_call_table nr ≡ none
table_none nr u = ground arith

-- read, write, open, close and execve.
abbrev pub IsStub : ℕ → Type 0
IsStub nr = (nr < 4) ⊎ (nr ≡ 59)

abbrev pub say : {S : Type 0} → Message → Machine S → Machine S
say x m = record m { messages = m.messages ++ x ∷ [] }

-- The call answers 27 and changes nothing, but for the line that it prints.
abbrev pub Refused : {S : Type 0} → Machine S → ℕ → Answer S → Type 0
Refused {S} m nr r =
    (m' : Machine S) × (r ≡ returns (pos 27) m')
    × (((nr_syscalls ≤ nr) × (m' ≡ say (invalid nr) m))
        ⊎ ((IsUnknown nr × (m' ≡ say (unimplemented nr) m)) ⊎ (IsStub nr × (m' ≡ m))))

module _ {S : Type 0} (O : OutsideCalls S) (fuel : ℕ) (a : Args) (m : Machine S) where
  invalid-returns :
      (nr : ℕ) → nr_syscalls ≤ nr → do_syscall O fuel nr a m ≡ returns (pos 27) (say (invalid nr) m)
  unfolding do_syscall
  invalid-returns nr le = ground arith

  unknown-returns :
      (nr : ℕ)
      → IsUnknown nr
      → do_syscall O fuel nr a m ≡ returns (pos 27) (say (unimplemented nr) m)
  unfolding do_syscall call_entry
  unknown-returns nr u = rw (table_none nr u) (ground arith)

  stub-returns : (nr : ℕ) → IsStub nr → do_syscall O fuel nr a m ≡ returns (pos 27) m
  unfolding do_syscall call_entry call
  stub-returns nr u = ground arith

  -- For a number from NR_syscalls up, a number that the table has no entry for, and the numbers of
  -- read, write, open, close and execve, do_syscall answers 27, a positive number, whatever the
  -- arguments and the functions outside: it prints the number as invalid in the first case and as
  -- unimplemented in the second, prints nothing in the third, and changes nothing else.
  pub do_syscall-Refused :
      (nr : ℕ)
      → (nr_syscalls ≤ nr) ⊎ (IsUnknown nr ⊎ IsStub nr)
      → Refused m nr (do_syscall O fuel nr a m)
  do_syscall-Refused nr (inl le) = (say (invalid nr) m, invalid-returns nr le, inl (le, refl))
  do_syscall-Refused nr (inr (inl u)) =
      (say (unimplemented nr) m, unknown-returns nr u, inr (inl (u, refl)))
  do_syscall-Refused nr (inr (inr u)) = (m, stub-returns nr u, inr (inr (u, refl)))
