-- ===== src/Buddy/Sum.antt =====
-- Sums over the orders and migrate types of a zone.
use native.Mathlib.Decide.{dec_lt}
use kernal.Prelude.{
  Bool-cases, inl, inr, ◌∙◌, ℕ, zero, suc, ◌+◌, ◌*◌, ◌≤◌, ◌<◌, ◌≡◌, refl, ◌&&◌, arith, ◌==◌,
  if◌then◌else◌,
}
use kernal.Buddy.{max_order, migrate_types}

unfoldable pub sum_below : ℕ → (ℕ → ℕ) → ℕ
sum_below zero f = 0
sum_below (suc n) f = sum_below n f + f n

pub sum-ext : (n : ℕ) (f g : ℕ → ℕ) → ((i : ℕ) → i < n → f i ≡ g i) → sum_below n f ≡ sum_below n g
unfolding sum_below
sum-ext zero f g h = refl
sum-ext (suc n) f g h = omega (arith, sum-ext n f g (λ i l. h i (omega arith)), h n (omega arith))

sum-add : (n : ℕ) (f g : ℕ → ℕ) → sum_below n (λ i. f i + g i) ≡ sum_below n f + sum_below n g
unfolding sum_below
sum-add zero f g = refl
sum-add (suc n) f g = omega (arith, sum-add n f g)

sum-mul : (n : ℕ) (f : ℕ → ℕ) (c : ℕ) → sum_below n (λ i. f i * c) ≡ sum_below n f * c
unfolding sum_below
sum-mul zero f c = omega arith
sum-mul (suc n) f c = grind (arith, sum-mul n f c)

pub sum-le : (n : ℕ) (f : ℕ → ℕ) (i : ℕ) → i < n → f i ≤ sum_below n f
unfolding sum_below
sum-le zero f i l = absurd (omega arith)
sum-le (suc n) f i l = ground (arith, sum-le n f i)

-- The whole sum, and its laws.
unfoldable pub total : (ℕ → ℕ → ℕ) → ℕ
unfolding sum_below
total f = sum_below max_order (λ o. sum_below migrate_types (f o))

pub total-ext :
    (f g : ℕ → ℕ → ℕ)
    → ((o m : ℕ) → o < max_order → m < migrate_types → f o m ≡ g o m)
    → total f ≡ total g
unfolding total
total-ext f g h =
    sum-ext max_order (λ o. sum_below migrate_types (f o)) (λ o. sum_below migrate_types (g o))
      (λ o l. sum-ext migrate_types (f o) (g o) (λ m k. h o m l k))

pub total-add : (f g : ℕ → ℕ → ℕ) → total (λ o m. f o m + g o m) ≡ total f + total g
unfolding total
total-add f g =
    sum-ext max_order _ (λ o. sum_below migrate_types (f o) + sum_below migrate_types (g o))
      (λ o _. sum-add migrate_types (f o) (g o))
    ∙ sum-add max_order (λ o. sum_below migrate_types (f o)) (λ o. sum_below migrate_types (g o))

pub total-mul : (f : ℕ → ℕ → ℕ) (c : ℕ) → total (λ o m. f o m * c) ≡ total f * c
unfolding total
total-mul f c =
    sum-ext max_order _ (λ o. sum_below migrate_types (f o) * c)
      (λ o _. sum-mul migrate_types (f o) c)
    ∙ sum-mul max_order (λ o. sum_below migrate_types (f o)) c

pub total-le : (f : ℕ → ℕ → ℕ) (o m : ℕ) → o < max_order → m < migrate_types → f o m ≤ total f
unfolding total
total-le f o m l k = omega (
  arith,
  sum-le migrate_types (f o) m k,
  sum-le max_order (λ o. sum_below migrate_types (f o)) o l,
)

-- A function with one value that is not zero.
sum-zero : (n : ℕ) (f : ℕ → ℕ) → ((i : ℕ) → i < n → f i ≡ 0) → sum_below n f ≡ 0
unfolding sum_below
sum-zero zero f h = refl
sum-zero (suc n) f h = omega (arith, sum-zero n f (λ i l. h i (omega arith)), h n (omega arith))

sum-point : (n i c : ℕ) → i < n → sum_below n (λ j. if j == i then c else 0) ≡ c
unfolding sum_below
sum-point zero i c l = absurd (omega arith)
sum-point (suc n) i c l = elim (dec_lt i n) [
  | yes p ↦ ground (arith, sum-point n i c p)
  | no p ↦ ground (arith, sum-zero n (λ j. if j == i then c else 0) (λ j k. ground arith))
]

pub total-point :
    (o m c : ℕ)
    → o < max_order
    → m < migrate_types
    → total (λ o' m'. if (o' == o) && (m' == m) then c else 0) ≡ c
unfolding total
total-point o m c l k =
    sum-ext max_order
      (λ o'. sum_below migrate_types (λ m'. if (o' == o) && (m' == m) then c else 0))
      (λ o'. if o' == o then c else 0) (λ o' _. row o')
    ∙ sum-point max_order o c l
  where
    row :
        (o' : ℕ)
        → sum_below migrate_types (λ m'. if (o' == o) && (m' == m) then c else 0)
          ≡ (if o' == o then c else 0)
    row o' = elim (Bool-cases (o' == o)) [
      | inl e ↦ rw e (sum-point migrate_types m c k)
      | inr e ↦ rw e (sum-zero migrate_types (λ _. 0) (λ _ _. refl))
    ]

sum-pos : (n : ℕ) (f : ℕ → ℕ) → 0 < sum_below n f → (i : ℕ) × (i < n) × (0 < f i)
unfolding sum_below
sum-pos zero f h = absurd (omega arith)
sum-pos (suc n) f h = elim (dec_lt 0 (f n)) [
  | yes p ↦ (n, omega arith, p)
  | no p ↦ let (i, l, q) = sum-pos n f (omega arith) in (i, omega arith, q)
]

-- A sum that is not zero has a part that is not.
pub total-pos :
    (f : ℕ → ℕ → ℕ)
    → 0 < total f
    → (o : ℕ) × (m : ℕ) × (o < max_order) × (m < migrate_types) × (0 < f o m)
unfolding total
total-pos f h =
    let (o, lo, p) = sum-pos max_order (λ o. sum_below migrate_types (f o)) h in
    let (m, lm, q) = sum-pos migrate_types (f o) p in (o, m, lo, lm, q)
