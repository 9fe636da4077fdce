-- ===== src/Console.antt =====
-- src/kernel/main.c: `printk` down to the serial port.
pub mod Sent
mod Tests
use Prim.Native.Nat.{bit_and}
use kernal.Prelude.{
  ℕ, zero, suc, ◌+◌, ◌-◌, ◌≤◌, ◌≡◌, Bool, Option, none, some, List, [], ◌∷◌, ◌++◌, ◌==◌, length,
  take, if◌then◌else◌,
}
use kernal.Fair.Load.{◌>>=◌}

-- The bytes from an address on.
abbrev pub read : (ℕ → ℕ) → ℕ → ℕ → List ℕ
read m i zero = []
read m i (suc n) = m i ∷ read m (i + 1) n

abbrev pub serial_port : ℕ
serial_port = 0x3F8

-- The ports, by the assembly of `inb` and `outb`. A read of the state of the port sends nothing, and
-- a write to the port sends a byte; `sent` is what was sent so far.
pub record Ports (S : Type 0) : Type 0 where
  pub inb : ℕ → S → ℕ × S
  pub outb : ℕ → ℕ → S → S
  pub sent : S → List ℕ
  pub inb-sent : (p : ℕ) (s : S) → sent (inb p s).1 ≡ sent s
  pub outb-sent : (c : ℕ) (s : S) → sent (outb serial_port c s) ≡ sent s ++ c ∷ []

-- `vsnprintf`, which no file defines, for a format and arguments that make a text. It answers the
-- length of the text, and writes what fits the size and a zero.
pub record FormatOps : Type 0 where
  pub vsnprintf : ℕ → List ℕ → (ℕ → ℕ) → ℕ × (ℕ → ℕ)
  pub vsnprintf-length : (n : ℕ) (t : List ℕ) (m : ℕ → ℕ) → (vsnprintf n t m).0 ≡ length t
  pub vsnprintf-text :
      (n : ℕ) (t : List ℕ) (m : ℕ → ℕ)
      → read (vsnprintf (suc n) t m).1 0 (length (take n t)) ≡ take n t
  pub vsnprintf-end :
      (n : ℕ) (t : List ℕ) (m : ℕ → ℕ) → (vsnprintf (suc n) t m).1 (length (take n t)) ≡ 0
  pub vsnprintf-kept :
      (n : ℕ) (t : List ℕ) (m : ℕ → ℕ) (i : ℕ) → n ≤ i → (vsnprintf n t m).1 i ≡ m i

module _ {S : Type 0} (P : Ports S) where
  open P use {inb, outb}

  -- The `while` of `serial_putc`, with the rounds that it may take.
  unfoldable pub serial_wait : ℕ → S → Option S
  serial_wait zero s = none
  serial_wait (suc fuel) s =
      let (state, s1) = inb (serial_port + 5) s in
      let rest = serial_wait fuel s1 in if bit_and state 0x20 == 0 then rest else some s1

  unfoldable pub serial_putc : ℕ → ℕ → S → Option S
  unfolding serial_wait
  serial_putc fuel c s = serial_wait fuel s >>= λ s1. some (outb serial_port c s1)

  -- The rounds left, and i.
  unfoldable pub write_loop : ℕ → (ℕ → ℕ) → ℕ → ℕ → S → Option S
  unfolding serial_putc
  write_loop fuel buffer zero i s = some s
  write_loop fuel buffer (suc n) i s =
      serial_putc fuel (buffer i) s >>= λ s1. write_loop fuel buffer n (i + 1) s1

  unfoldable pub console_write : ℕ → (ℕ → ℕ) → ℕ → S → Option S
  unfolding write_loop
  console_write fuel buffer len s = write_loop fuel buffer len 0 s

  -- `stack` is what the stack holds from `buffer` on, before the call. The length is far from the
  -- range of an int.
  unfoldable pub printk : FormatOps → ℕ → List ℕ → (ℕ → ℕ) → S → Option (ℕ × S)
  unfolding console_write
  printk F fuel text stack s =
      let (len, buffer) = F.vsnprintf 1024 text stack in
      console_write fuel buffer len s >>= λ s1. some (len, s1)
