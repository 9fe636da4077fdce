-- ===== src/Fair/Share.antt =====
-- kernel/core/sched/sched_fair.c: the bounds of the weighted time.
use native.Mathlib.Decide.{dec_lt, ℕ_discrete}
use native.Mathlib.Nat.{
  div-mul-le_self, div-le_self, mul_comm, le_trans, mul-le-mul_left, mul-le-mul_right,
}
use kernal.Prelude.{
  ℕ, zero, suc, ◌+◌, ◌-◌, ◌*◌, ◌/◌, ◌%◌, ◌^◌, ◌≤◌, ◌<◌, ◌≡◌, ◌⊎◌, inr, refl, sym, ap, ◌∙◌, false,
  some, ◌==◌, arith,
}
use kernal.Buddy.Bits.{two_pow_suc}
use kernal.Task.Fields.{LoadWeight}
use kernal.Fair.Load.{
  ScaleOps, nice_0_load, halve, halvings, __update_inv_weight, __calc_delta, calc_delta_fair,
}

-- What `halve` reaches: `rounds` halvings, and a number of 32 bits.
pub record IsHalved (fact shift : ℕ) (r : ℕ × ℕ) : Type 0 where
  pub rounds : ℕ
  pub small : r.0 < 2 ^ 32
  pub under : r.0 * 2 ^ rounds ≤ fact
  pub count : r.1 + rounds ≡ shift

halve_stop : (k fact shift : ℕ) → fact < 2 ^ 32 → halve (suc k) fact shift ≡ some (fact, shift)
unfolding halve
halve_stop k fact shift l = ground arith

halve_step :
    (k fact shift : ℕ)
    → 2 ^ 32 ≤ fact
    → 0 < shift
    → shift < 2 ^ 32
    → halve (suc k) fact shift ≡ halve k (fact / 2) (shift - 1)
unfolding halve
halve_step k fact shift l o u = rw (pred, above) refl
  where
    pred : (shift + 2 ^ 32 - 1) % 2 ^ 32 ≡ shift - 1
    pred = omega arith

    above : (fact / 2 ^ 32 == 0) ≡ false
    above = ground arith

IsHalved-step :
    (fact shift : ℕ) (r : ℕ × ℕ)
    → 0 < shift
    → IsHalved (fact / 2) (shift - 1) r
    → IsHalved fact shift r
IsHalved-step fact shift r o h = record {
  rounds = suc h.rounds;
  small = h.small;
  under = rw (two_pow_suc h.rounds) (omega (arith, twice));
  count = omega (arith, h.count);
}
  where
    twice : r.0 * (2 * 2 ^ h.rounds) ≤ 2 * (fact / 2)
    twice = grind (arith, h.under)

pub halve-IsHalved :
    (k fact shift : ℕ)
    → fact < 2 ^ k * 2 ^ 32
    → k ≤ shift
    → shift < 2 ^ 32
    → (r : ℕ × ℕ) × (halve (suc k) fact shift ≡ some r) × IsHalved fact shift r
halve-IsHalved zero fact shift f l u = (
  (fact, shift),
  halve_stop zero fact shift (omega arith),
  record { rounds = 0; small = omega arith; under = omega arith; count = omega arith },
)
halve-IsHalved (suc k) fact shift f l u = elim (dec_lt fact (2 ^ 32)) [
  | yes b ↦ (
    (fact, shift),
    halve_stop (suc k) fact shift b,
    record { rounds = 0; small = b; under = omega arith; count = omega arith },
  )
  | no b ↦
      let (r, e, h) =
        halve-IsHalved k (fact / 2) (shift - 1) (omega (arith, f, two_pow_suc k)) (omega arith)
          (omega arith) in
      (
        r,
        halve_step (suc k) fact shift (omega arith) (omega arith) u ∙ e,
        IsHalved-step fact shift r (omega arith) h,
      )
]

two_pow_add : (a b : ℕ) → 2 ^ (a + b) ≡ 2 ^ a * 2 ^ b
two_pow_add a zero = ap (λ n. 2 ^ n) (add_zero a) ∙ omega arith
  where
    add_zero : (n : ℕ) → n + 0 ≡ n
    add_zero n = omega arith
two_pow_add a (suc b) =
    ap (λ n. 2 ^ n) (add_suc a b)
    ∙ grind (arith, two_pow_suc (a + b), two_pow_suc b, two_pow_add a b)
  where
    add_suc : (n m : ℕ) → n + suc m ≡ suc (n + m)
    add_suc n m = omega arith

-- The bound on the share, from the bounds on its parts.
share_bound :
    (w inv d f s j r : ℕ)
    → w * inv ≤ 2 ^ 32 - 1
    → f * 2 ^ j ≤ 1024 * inv
    → s + j ≡ 32
    → r * 2 ^ s ≤ d * f
    → w * r ≤ 1024 * d
share_bound w inv d f s j r a b c e = elim (dec_lt (1024 * d) (w * r)) [
  | yes g ↦ absurd (omega (arith, total, g))
  | no g ↦ omega arith
]
  where
    width : 2 ^ s * 2 ^ j ≡ 2 ^ 32
    width = sym (two_pow_add s j) ∙ ap (λ n. 2 ^ n) c

    left : r * 2 ^ 32 ≤ d * (f * 2 ^ j)
    left = grind (arith, width, mul-le-mul_right (2 ^ j) e)

    right : d * (f * 2 ^ j) ≤ d * (1024 * inv)
    right = mul-le-mul_left d b

    times : w * r * 2 ^ 32 ≤ 1024 * d * (w * inv)
    times = grind (arith, mul-le-mul_left w (le_trans left right))

    share : 1024 * d * (w * inv) ≤ 1024 * d * (2 ^ 32 - 1)
    share = mul-le-mul_left (1024 * d) a

    total : w * r * 2 ^ 32 ≤ 1024 * d * (2 ^ 32 - 1)
    total = le_trans times share

-- The inverse of a weight, not yet computed or as `__update_inv_weight` computes it.
abbrev pub IsInverse : LoadWeight → Type 0
IsInverse lw = (lw.inv_weight ≡ 0) ⊎ (lw.inv_weight ≡ (2 ^ 32 - 1) / lw.weight)

update_inv :
    (S : ScaleOps) (lw : LoadWeight)
    → 0 < lw.weight
    → lw.weight < 2 ^ 32 - 1
    → IsInverse lw
    → ((__update_inv_weight S lw).inv_weight ≡ (2 ^ 32 - 1) / lw.weight)
      × ((__update_inv_weight S lw).weight ≡ lw.weight)
unfolding __update_inv_weight
update_inv S lw lo hi i = ground (arith, S.scale-same lw.weight, S.const-max)

calc_delta_lem :
    (S : ScaleOps) (delta : ℕ) (lw : LoadWeight) (fact shift : ℕ)
    → halve halvings (S.scale_load_down nice_0_load) S.wmult_shift ≡ some (1024, 32)
    → halve halvings (1024 * (__update_inv_weight S lw).inv_weight % 2 ^ 64) 32 ≡ some (fact, shift)
    → __calc_delta S delta nice_0_load lw
      ≡ some (S.mul_u64_u32_shr delta fact shift, __update_inv_weight S lw)
unfolding __calc_delta
calc_delta_lem S delta lw fact shift e1 e2 = rw (e1, e2) refl

first_halve :
    (S : ScaleOps) → halve halvings (S.scale_load_down nice_0_load) S.wmult_shift ≡ some (1024, 32)
first_halve S = rw (S.scale-same 1024, S.shift-width) (halve_stop 32 1024 32 (omega arith))

shr_bound : (S : ScaleOps) (d f s : ℕ) → S.mul_u64_u32_shr d f s * 2 ^ s ≤ d * f
shr_bound S d f s =
    rw (S.mul-shr d f s) (
      le_trans (mul-le-mul_right (2 ^ s) (mod_le (d * f / 2 ^ s)))
        (div-mul-le_self (d * f) (2 ^ s)))
  where
    mod_le : (x : ℕ) → x % 2 ^ 64 ≤ x
    mod_le x = omega arith

inverse_bound :
    (lw : LoadWeight) (inv : ℕ)
    → inv ≡ (2 ^ 32 - 1) / lw.weight
    → (lw.weight * inv ≤ 2 ^ 32 - 1) × (inv < 2 ^ 32)
inverse_bound lw inv e = (
  rw (e, mul_comm lw.weight ((2 ^ 32 - 1) / lw.weight)) (div-mul-le_self (2 ^ 32 - 1) lw.weight),
  omega (arith, e, div-le_self (2 ^ 32 - 1) lw.weight),
)

share_of :
    (S : ScaleOps) (delta : ℕ) (lw : LoadWeight) (inv : ℕ) (r : ℕ × ℕ)
    → inv ≡ (2 ^ 32 - 1) / lw.weight
    → IsHalved (1024 * inv % 2 ^ 64) 32 r
    → lw.weight * S.mul_u64_u32_shr delta r.0 r.1 ≤ 1024 * delta
share_of S delta lw inv r e h =
    share_bound lw.weight inv delta r.0 r.1 h.rounds (S.mul_u64_u32_shr delta r.0 r.1)
      (inverse_bound lw inv e).0 (omega (arith, h.under)) h.count (shr_bound S delta r.0 r.1)

__calc_delta-share :
    (S : ScaleOps) (delta : ℕ) (lw : LoadWeight)
    → 0 < lw.weight
    → lw.weight < 2 ^ 32 - 1
    → IsInverse lw
    → (r : ℕ) × (lw' : LoadWeight) × (__calc_delta S delta nice_0_load lw ≡ some (r, lw'))
      × (lw.weight * r ≤ 1024 * delta)
      × (lw'.weight ≡ lw.weight)
      × IsInverse lw'
__calc_delta-share S delta lw lo hi i =
    let lw' = __update_inv_weight S lw in
    let (ei, ew) = update_inv S lw lo hi i in
    let (r, e, h) =
      halve-IsHalved 32 (1024 * lw'.inv_weight % 2 ^ 64) 32 (omega arith) (omega arith)
        (omega arith) in
    (
      S.mul_u64_u32_shr delta r.0 r.1,
      lw',
      calc_delta_lem S delta lw r.0 r.1 (first_halve S) e,
      share_of S delta lw lw'.inv_weight r ei h,
      ew,
      inr (rw ew ei),
    )

-- For a weight above 0 and below 2^32 - 1 with its inverse not yet computed or right:
-- calc_delta_fair ends within 33 rounds of each of its loops, its result times the weight is at
-- most 1024 times the time, and the weight keeps its value with an inverse that is not yet
-- computed or right.
pub calc_delta_fair-share :
    (S : ScaleOps) (delta : ℕ) (lw : LoadWeight)
    → 0 < lw.weight
    → lw.weight < 2 ^ 32 - 1
    → IsInverse lw
    → (r : ℕ) × (lw' : LoadWeight) × (calc_delta_fair S delta lw ≡ some (r, lw'))
      × (lw.weight * r ≤ 1024 * delta)
      × (lw'.weight ≡ lw.weight)
      × IsInverse lw'
unfolding calc_delta_fair
calc_delta_fair-share S delta lw lo hi i = elim (ℕ_discrete lw.weight nice_0_load) [
  | yes e ↦ (delta, lw, ground (arith, e), omega (arith, ap (λ w. w * delta) e), refl, i)
  | no n ↦
      let (r, lw', e, b, w, i') = __calc_delta-share S delta lw lo hi i in
      (r, lw', ground (arith, n, e), b, w, i')
]
