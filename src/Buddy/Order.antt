-- ===== src/Buddy/Order.antt =====
-- kernel/mm/buddy.c: `get_order`.
use kernal.Prelude.{
  ℕ, zero, suc, ◌+◌, ◌-◌, ◌*◌, ◌/◌, ◌%◌, ◌^◌, ◌≤◌, ◌<◌, ◌≡◌, refl, Option, none, some, ◌==◌,
  Bool-cases, inl, inr, true, ap, ◌∙◌, if◌then◌else◌, arith,
}
use kernal.Buddy.{ulong_mod}
use kernal.Buddy.Bits.{two_pow_suc}

abbrev pub page_shift : ℕ
page_shift = 12

-- The `while`, with the rounds that it may take.
unfoldable pub order_loop : ℕ → ℕ → ℕ → Option ℕ
order_loop zero size order = if size == 0 then some order else none
order_loop (suc fuel) size order =
    let rest = order_loop fuel (size / 2) (order + 1) in if size == 0 then some order else rest

-- An `ulong` has 32 bits.
unfoldable pub get_order : ℕ → Option ℕ
unfolding order_loop
get_order size = order_loop 32 ((size + ulong_mod - 1) % ulong_mod / 2 ^ page_shift) 0

-- The least power of 2 above `s` is 2^k.
abbrev pub Above : ℕ → ℕ → Type 0
Above s k = (s < 2 ^ k) × ((j : ℕ) → s < 2 ^ j → k ≤ j)

half-Above : (s k : ℕ) → 0 < s → Above (s / 2) k → Above s (suc k)
half-Above s k pos (lt, least) = (omega (arith, two_pow_suc k, lt), least_suc)
  where
    least_suc : (j : ℕ) → s < 2 ^ j → suc k ≤ j
    least_suc zero h = omega (arith, h, pos)
    least_suc (suc j) h = let i = least j (omega (arith, two_pow_suc j, h)) in omega (arith, i)

zero-Above : (s o : ℕ) → (s == 0) ≡ true → (some o ≡ some (o + 0)) × Above s 0
zero-Above s o e =
    let z : s ≡ 0 = ground arith in (ap some (omega arith), (omega (arith, z), λ j h. omega arith))

-- Enough rounds, and what the loop counts.
order_loop-Above :
    (fuel s o : ℕ) → s < 2 ^ fuel → (k : ℕ) × (order_loop fuel s o ≡ some (o + k)) × Above s k
unfolding order_loop
order_loop-Above zero s o h =
    let e : (s == 0) ≡ true = ground arith in (0, rw e (zero-Above s o e).0, (zero-Above s o e).1)
order_loop-Above (suc fuel) s o h = elim (Bool-cases (s == 0)) [
  | inl e ↦ (0, rw e (zero-Above s o e).0, (zero-Above s o e).1)
  | inr e ↦
      let (k, r, a) = order_loop-Above fuel (s / 2) (o + 1) (omega (arith, h, two_pow_suc fuel)) in
      (suc k, rw (e, r) (ap some (omega arith)), half-Above s k (ground arith) a)
]

-- For a size above 0 of an ulong, get_order ends, and answers the least order whose block of 4096
-- * 2^order bytes holds the size.
pub get_order-least :
    (size : ℕ)
    → 0 < size
    → size < ulong_mod
    → (k : ℕ) × (get_order size ≡ some k)
      × (size ≤ 4096 * 2 ^ k)
      × ((j : ℕ) → size ≤ 4096 * 2 ^ j → k ≤ j)
unfolding get_order
get_order-least size pos lt =
    let s = (size + ulong_mod - 1) % ulong_mod / 4096 in
    let less : s ≡ (size - 1) / 4096 = omega (arith, pos, lt) in
    let (k, r, above) = order_loop-Above 32 s 0 (omega (arith, less)) in
    (
      k,
      r ∙ ap some (omega arith),
      omega (arith, above.0, less),
      λ j h. above.1 j (omega (arith, h, less)),
    )

-- The size 0 wraps.
get_order_zero : get_order 0 ≡ some 20
unfolding get_order order_loop
get_order_zero = refl
