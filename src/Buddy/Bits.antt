-- ===== src/Buddy/Bits.antt =====
-- kernel/mm/buddy.c: which bit of a page frame number tells it from its buddy.
use Prim.Native.Nat.{
  min, digits, differ, bitwise, bit_and, bit_xor, bit_and-bitwise, bit_xor-bitwise,
}
use kernal.Prelude.{
  ℕ, zero, suc, ◌+◌, ◌-◌, ◌*◌, ◌/◌, ◌%◌, ◌^◌, ◌≤◌, ◌<◌, ◌≡◌, ◌∙◌, sym, refl, Bool, true, false,
  arith, ◌==◌, if◌then◌else◌,
}
use native.Mathlib.Nat.{pow-suc, pow-le-pow_right}

-- `2 ^ o` divides `q`.
abbrev pub Aligned : ℕ → ℕ → Type 0
Aligned zero q = Unit
Aligned (suc o) q = (q % 2 ≡ 0) × Aligned o (q / 2)

pub two_pow_suc : (n : ℕ) → 2 ^ suc n ≡ 2 * 2 ^ n
two_pow_suc n = omega (arith, pow-suc 2 n)

pub two_pow_mono : (a b : ℕ) → a ≤ b → 2 ^ a ≤ 2 ^ b
two_pow_mono a b h = pow-le-pow_right (omega arith) h

-- One equation for the lowest digit of each operation.
module _ (z : ℕ → ℕ) (f : ℕ → ℕ → ℕ) where
  digits_enough : (n m a b : ℕ) → a ≤ n → a ≤ m → digits z f n a b ≡ digits z f m a b
  digits_enough n m zero b p q = digits-zero n b ∙ sym (digits-zero m b)
    where
      digits-zero : (n b : ℕ) → digits z f n zero b ≡ z b
      digits-zero zero b = refl
      digits-zero (suc n) b = refl
  digits_enough zero m (suc a) b p q = absurd (omega arith)
  digits_enough (suc n) zero (suc a) b p q = absurd (omega arith)
  digits_enough (suc n) (suc m) (suc a) b p q =
      rw (digits_enough n m (suc a / 2) (b / 2) (omega arith) (omega arith))

  lowest_digit :
      (a b : ℕ)
      → bitwise z f (suc a) b ≡ bitwise z f (suc a / 2) (b / 2) * 2 + f (suc a % 2) (b % 2)
  lowest_digit a b =
      omega (arith, digits_enough a (suc a / 2) (suc a / 2) (b / 2) (omega arith) (omega arith))

and-step : (a b : ℕ) → bit_and a b ≡ bit_and (a / 2) (b / 2) * 2 + min (a % 2) (b % 2)
and-step zero b = simp bit_and-bitwise (omega arith)
and-step (suc a) b = simp bit_and-bitwise (lowest_digit (λ y. 0) min a b)

xor-step : (a b : ℕ) → bit_xor a b ≡ bit_xor (a / 2) (b / 2) * 2 + differ (a % 2) (b % 2)
xor-step zero b = simp bit_xor-bitwise (omega arith)
xor-step (suc a) b = simp bit_xor-bitwise (lowest_digit (λ y. y) differ a b)

differ-digits : (a b : ℕ) → a < 2 → b < 2 → differ a b ≡ (a + b) % 2
differ-digits zero b l k = omega arith
differ-digits (suc zero) zero l k = refl
differ-digits (suc zero) (suc zero) l k = refl
differ-digits (suc zero) (suc (suc b)) l k = absurd (omega arith)
differ-digits (suc (suc a)) b l k = absurd (omega arith)

xor_digit : (a b : ℕ) → bit_xor a b ≡ bit_xor (a / 2) (b / 2) * 2 + (a % 2 + b % 2) % 2
xor_digit a b =
    omega (arith, xor-step a b, differ-digits (a % 2) (b % 2) (omega arith) (omega arith))

-- Induction on a number by halves.
half-xor_zero : (n a : ℕ) → a ≤ n → bit_xor a 0 ≡ a
half-xor_zero zero zero h = refl
half-xor_zero zero (suc a) h = absurd (omega arith)
half-xor_zero (suc n) zero h = refl
half-xor_zero (suc n) (suc a) h =
    omega (arith, xor_digit (suc a) 0, half-xor_zero n (suc a / 2) (omega arith))

half-and_self : (n a : ℕ) → a ≤ n → bit_and a a ≡ a
half-and_self zero zero h = refl
half-and_self zero (suc a) h = absurd (omega arith)
half-and_self (suc n) zero h = refl
half-and_self (suc n) (suc a) h =
    omega (arith, and-step (suc a) (suc a), half-and_self n (suc a / 2) (omega arith))

-- The bit that `1 << o` names.
unfoldable pub bit : ℕ → ℕ → Bool
bit zero x = x % 2 == 1
bit (suc o) x = bit o (x / 2)

pub two_pow-le_of_bit : (o x : ℕ) → bit o x ≡ true → 2 ^ o ≤ x
unfolding bit
two_pow-le_of_bit zero x h = ground arith
two_pow-le_of_bit (suc o) x h = omega (arith, two_pow_suc o, two_pow-le_of_bit o (x / 2) h)

abbrev pub flip : ℕ → ℕ → ℕ
flip o x = if bit o x then x - 2 ^ o else x + 2 ^ o

abbrev pub clear : ℕ → ℕ → ℕ
clear o x = if bit o x then x - 2 ^ o else x

-- The exclusive or with `1 << o` turns that bit over.
pub xor-flip : (o x : ℕ) → bit_xor x (2 ^ o) ≡ flip o x
unfolding bit
xor-flip zero x = ground (arith, xor_digit x 1, half-xor_zero (x / 2) (x / 2) (omega arith))
xor-flip (suc o) x =
    let up = two_pow_suc o in
    let half : 2 ^ suc o / 2 ≡ 2 ^ o = omega arith in
    let step = xor_digit x (2 ^ suc o) in
    let rest : bit_xor (x / 2) (2 ^ suc o / 2) ≡ flip o (x / 2) = rw half (xor-flip o (x / 2)) in
    ground (arith, two_pow-le_of_bit o (x / 2))

-- The halves of a number with a bit turned over or cleared.
flip-half : (o x : ℕ) → (flip (suc o) x / 2 ≡ flip o (x / 2)) × (flip (suc o) x % 2 ≡ x % 2)
unfolding bit
flip-half o x = (
  ground (arith, two_pow_suc o, two_pow-le_of_bit o (x / 2)),
  ground (arith, two_pow_suc o, two_pow-le_of_bit o (x / 2)),
)

clear-half : (o x : ℕ) → (clear (suc o) x / 2 ≡ clear o (x / 2)) × (clear (suc o) x % 2 ≡ x % 2)
unfolding bit
clear-half o x = (
  ground (arith, two_pow_suc o, two_pow-le_of_bit o (x / 2)),
  ground (arith, two_pow_suc o, two_pow-le_of_bit o (x / 2)),
)

-- A number and the one with a bit turned over have the rest of their bits in common.
pub and-flip : (o x : ℕ) → bit_and (flip o x) x ≡ clear o x
and-flip zero x =
    let same = half-and_self (x / 2) (x / 2) (omega arith) in
    let half : flip 0 x / 2 ≡ x / 2 = unfold bit in ground arith in
    let low : flip 0 x % 2 + x % 2 ≡ 1 = unfold bit in ground arith in
    let none_left : clear 0 x ≡ x / 2 * 2 = unfold bit in ground arith in
    let rest : bit_and (flip 0 x / 2) (x / 2) ≡ x / 2 = rw half same in
    omega (arith, and-step (flip 0 x) x)
and-flip (suc o) x =
    let (half, low) = flip-half o x in
    let (chalf, clow) = clear-half o x in
    let rest : bit_and (flip (suc o) x / 2) (x / 2) ≡ clear o (x / 2) =
      rw half (and-flip o (x / 2)) in
    omega (arith, and-step (flip (suc o) x) x)

pub Aligned-clear : (o x : ℕ) → Aligned o x → Aligned (suc o) (clear o x)
Aligned-clear zero x h = (unfold bit in ground arith, tt)
Aligned-clear (suc o) x h =
    let (half, low) = clear-half o x in (low ∙ h.0, rw half (Aligned-clear o (x / 2) h.1))

pub Aligned-add : (o k x : ℕ) → o < k → Aligned k x → Aligned o (x + 2 ^ o)
Aligned-add zero k x l h = tt
Aligned-add (suc o) zero x l h = absurd (omega arith)
Aligned-add (suc o) (suc k) x l h =
    let half : (x + 2 ^ suc o) / 2 ≡ x / 2 + 2 ^ o = omega (arith, two_pow_suc o) in
    (omega (arith, two_pow_suc o), rw half (Aligned-add o k (x / 2) (omega arith) h.1))

pub Aligned-mono : (o k x : ℕ) → o ≤ k → Aligned k x → Aligned o x
Aligned-mono zero k x l h = tt
Aligned-mono (suc o) zero x l h = absurd (omega arith)
Aligned-mono (suc o) (suc k) x l h = (h.0, Aligned-mono o k (x / 2) (omega arith) h.1)

-- A number with a bit not set has room for that bit.
pub unset_fits : (o w x : ℕ) → o < w → bit o x ≡ false → x < 2 ^ w → x + 2 ^ o < 2 ^ w
unfolding bit
unset_fits zero zero x l e h = absurd (omega arith)
unset_fits zero (suc w) x l e h = ground (arith, two_pow_suc w)
unset_fits (suc o) zero x l e h = absurd (omega arith)
unset_fits (suc o) (suc w) x l e h = omega (
  arith,
  two_pow_suc o,
  two_pow_suc w,
  unset_fits o w (x / 2) (omega arith) e (omega (arith, two_pow_suc w)),
)
