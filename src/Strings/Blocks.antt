-- ===== src/Strings/Blocks.antt =====
-- src/kernel/main.c: `memset` and `memcpy`, byte by byte.
use kernal.Prelude.{
  ℕ, zero, suc, ◌+◌, ◌-◌, ◌%◌, ◌≤◌, ◌≡◌, ◌⊎◌, ◌&&◌, arith, leb, ltb, if◌then◌else◌,
}
use kernal.Strings.{Bytes, store, memset, memcpy}

-- memset leaves the low byte of its value in the n bytes from its address, and changes no byte
-- outside.
pub memset-fill :
    (p c n : ℕ) (m : Bytes) (a : ℕ)
    → memset p c n m a ≡ (if leb p a && ltb a (p + n) then c % 256 else m a)
unfolding memset
memset-fill p c zero m a = ground arith
memset-fill p c (suc n) m a = ground (arith, memset-fill (p + 1) c n (store p (c % 256) m) a)

-- Where the destination does not lie behind the start of the source within its length, memcpy
-- leaves at the destination the bytes that the source had before, and changes no byte outside.
pub memcpy-copy :
    (d s n : ℕ) (m : Bytes) (a : ℕ)
    → (d ≤ s) ⊎ (s + n ≤ d)
    → memcpy d s n m a ≡ (if leb d a && ltb a (d + n) then m (s + (a - d)) else m a)
unfolding memcpy
memcpy-copy d s zero m a o = ground arith
memcpy-copy d s (suc n) m a o =
    ground (arith, memcpy-copy (d + 1) (s + 1) n (store d (m s) m) a (omega arith))
