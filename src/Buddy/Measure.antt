-- ===== src/Buddy/Measure.antt =====
-- Weighted counts over the free lists of a zone, and how each list operation changes them.
use native.Mathlib.Decide.{dec_lt}
use kernal.Prelude.{
  refl, ℕ, ◌+◌, ◌*◌, ◌≤◌, ◌<◌, ◌≡◌, ◌∙◌, ap, List, [], ◌∷◌, ◌&&◌, arith, ◌==◌, if◌then◌else◌,
  Bool-cases, inl, inr,
}
use kernal.Buddy.{max_order, migrate_types, remove, push}
use kernal.Buddy.Sum.{total, total-ext, total-add, total-mul, total-le, total-point, total-pos}

-- The sum of the weights of a list's entries.
unfoldable pub weigh : (ℕ → ℕ) → List ℕ → ℕ
weigh g [] = 0
weigh g (x ∷ xs) = g x + weigh g xs

abbrev pub is : ℕ → ℕ → ℕ
is q x = if x == q then 1 else 0

-- The entries of all lists, each with a weight that may depend on the order of its list.
unfoldable pub measure : (ℕ → ℕ → ℕ) → (ℕ → ℕ → List ℕ) → ℕ
measure g l = total (λ o m. weigh (g o) (l o m))

-- How often a page is in the lists.
abbrev pub entries : ℕ → (ℕ → ℕ → List ℕ) → ℕ
entries q = measure (λ _. is q)

pub weigh-remove :
    (g : ℕ → ℕ) (q : ℕ) (xs : List ℕ)
    → weigh (is q) xs ≤ 1
    → weigh g xs ≡ weigh g (remove q xs) + weigh (is q) xs * g q
unfolding weigh remove
weigh-remove g q [] h = omega arith
weigh-remove g q (x ∷ xs) h = elim (Bool-cases (x == q)) [
  | inl e ↦
      let same : x ≡ q = ground arith in
      let none_left : weigh (is q) xs ≡ 0 = ground arith in rw (e, none_left, same) (omega arith)
  | inr e ↦ let ih = weigh-remove g q xs (ground arith) in rw e (omega arith)
]

pub entries-list :
    (q : ℕ) (l : ℕ → ℕ → List ℕ) (o m : ℕ)
    → o < max_order
    → m < migrate_types
    → weigh (is q) (l o m) ≤ entries q l
unfolding measure
entries-list q l o m = total-le (λ o m. weigh (is q) (l o m)) o m

-- A page that is in at most one list, and has the weight `w` there, is taken out.
pub measure-remove :
    (g : ℕ → ℕ → ℕ) (q w : ℕ) (l : ℕ → ℕ → List ℕ)
    → entries q l ≤ 1
    → ((o m : ℕ) → o < max_order → m < migrate_types → 0 < weigh (is q) (l o m) → g o q ≡ w)
    → measure g l ≡ measure g (λ o m. remove q (l o m)) + entries q l * w
unfolding measure
measure-remove g q w l once same =
    total-ext (λ o m. weigh (g o) (l o m))
      (λ o m. weigh (g o) (remove q (l o m)) + weigh (is q) (l o m) * w)
      (λ o m lo lm.
        let at_most = entries-list q l o m lo lm in
        weigh-remove (g o) q (l o m) (omega arith) ∙ elim (dec_lt 0 (weigh (is q) (l o m))) [
          | yes p ↦ rw (same o m lo lm p)
          | no p ↦ let z : weigh (is q) (l o m) ≡ 0 = omega arith in rw z (omega arith)
        ])
    ∙ total-add (λ o m. weigh (g o) (remove q (l o m))) (λ o m. weigh (is q) (l o m) * w)
    ∙ ap (λ t. total (λ o m. weigh (g o) (remove q (l o m))) + t)
        (total-mul (λ o m. weigh (is q) (l o m)) w)

pub measure-push :
    (g : ℕ → ℕ → ℕ) (o m q : ℕ) (l : ℕ → ℕ → List ℕ)
    → o < max_order
    → m < migrate_types
    → measure g (push o m q l) ≡ measure g l + g o q
unfolding measure weigh
measure-push g o m q l lo lm =
    total-ext (λ o' m'. weigh (g o') (push o m q l o' m'))
      (λ o' m'. weigh (g o') (l o' m') + (if (o' == o) && (m' == m) then g o q else 0))
      (λ o' m' _ _. ground arith)
    ∙ total-add (λ o' m'. weigh (g o') (l o' m'))
        (λ o' m'. if (o' == o) && (m' == m) then g o q else 0)
    ∙ ap (λ t. total (λ o' m'. weigh (g o') (l o' m')) + t) (total-point o m (g o q) lo lm)

pub weigh-remove_le : (g : ℕ → ℕ) (q : ℕ) (xs : List ℕ) → weigh g (remove q xs) ≤ weigh g xs
unfolding weigh remove
weigh-remove_le g q [] = omega arith
weigh-remove_le g q (x ∷ xs) = ground (arith, weigh-remove_le g q xs)

pub entries-pos :
    (q : ℕ) (l : ℕ → ℕ → List ℕ)
    → 0 < entries q l
    → (o : ℕ) × (m : ℕ) × (o < max_order) × (m < migrate_types) × (0 < weigh (is q) (l o m))
unfolding measure
entries-pos q l h = total-pos (λ o m. weigh (is q) (l o m)) h

pub measure-empty : (g : ℕ → ℕ → ℕ) → measure g (λ _ _. []) ≡ 0
unfolding measure total weigh
measure-empty g = refl
