-- ===== src/Task/Weights.antt =====
-- kernel/core/sched/sched.c: `prio_to_weight`.
use native.Mathlib.Decide.{dec_lt}
use kernal.Prelude.{
  ℕ, zero, suc, ◌-◌, ◌≤◌, ◌<◌, ◌≡◌, refl, ◌⊎◌, inl, inr, none, some, List, [], ◌∷◌, length,
  get_elem?, arith,
}
use kernal.Task.New.{max_rt_prio, prio_to_weight}
use kernal.Task.Fork.{weight_of}

-- Each entry lies above the entries that follow.
abbrev IsFalling : List ℕ → Type 0
IsFalling [] = Unit
IsFalling (x ∷ []) = 0 < x
IsFalling (x ∷ y ∷ xs) = (y < x) × IsFalling (y ∷ xs)

get_elem?-IsFalling :
    (xs : List ℕ) (i j v w : ℕ)
    → IsFalling xs
    → i < j
    → get_elem? xs i ≡ some v
    → get_elem? xs j ≡ some w
    → w < v
get_elem?-IsFalling [] i j v w f l a b = absurd (ground arith)
get_elem?-IsFalling (x ∷ []) i zero v w f l a b = absurd (omega arith)
get_elem?-IsFalling (x ∷ []) i (suc j) v w f l a b = absurd (ground arith)
get_elem?-IsFalling (x ∷ y ∷ xs) i zero v w f l a b = absurd (omega arith)
get_elem?-IsFalling (x ∷ y ∷ xs) zero (suc zero) v w f l a b = ground arith
get_elem?-IsFalling (x ∷ y ∷ xs) zero (suc (suc j)) v w f l a b =
    ground (arith, get_elem?-IsFalling (y ∷ xs) 0 (suc j) y w f.1 (omega arith) refl b)
get_elem?-IsFalling (x ∷ y ∷ xs) (suc i) (suc j) v w f l a b =
    get_elem?-IsFalling (y ∷ xs) i j v w f.1 (omega arith) a b

prio_to_weight-IsFalling : IsFalling prio_to_weight
prio_to_weight-IsFalling = omega arith

-- Of two static priorities that prio_to_weight has a weight for, the greater number has the lower
-- weight.
pub weight_of-lt : (a b v w : ℕ) → a < b → weight_of a ≡ some v → weight_of b ≡ some w → w < v
unfolding weight_of
weight_of-lt a b v w l p q =
    get_elem?-IsFalling prio_to_weight (a - max_rt_prio) (b - max_rt_prio) v w
      prio_to_weight-IsFalling (ground arith) (ground arith) (ground arith)

get_elem?-total {ℓ} :
    {A : Type ℓ} (xs : List A) (i : ℕ) → i < length xs → (v : A) × (get_elem? xs i ≡ some v)
get_elem?-total [] i l = absurd (omega arith)
get_elem?-total (x ∷ xs) zero l = (x, refl)
get_elem?-total (x ∷ xs) (suc i) l = get_elem?-total xs i (omega arith)

get_elem?-past {ℓ} : {A : Type ℓ} (xs : List A) (i : ℕ) → length xs ≤ i → get_elem? xs i ≡ none
get_elem?-past [] i l = refl
get_elem?-past (x ∷ xs) zero l = absurd (omega arith)
get_elem?-past (x ∷ xs) (suc i) l = get_elem?-past xs i (omega arith)

-- The priorities 100 to 139 have a weight, and no other.
pub weight_cases :
    (p : ℕ)
    → ((100 ≤ p) × (p < 140) × (w : ℕ) × (weight_of p ≡ some w))
      ⊎ (((p < 100) ⊎ (140 ≤ p)) × (weight_of p ≡ none))
unfolding weight_of
weight_cases p = elim (dec_lt p 100) [
  | yes l ↦ inr (inl l, ground arith)
  | no l ↦ elim (dec_lt p 140) [
    | yes h ↦
        let (w, e) = get_elem?-total prio_to_weight (p - 100) (omega arith) in
        inl (omega arith, h, w, ground arith)
    | no h ↦
        inr
          (inr (omega arith), ground (arith, get_elem?-past prio_to_weight (p - 100) (omega arith)))
  ]
]
