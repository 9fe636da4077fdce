-- ===== src/Fair/Order.antt =====
-- kernel/core/sched/sched_fair.c: the order of the waiting entities, and which of them is leftmost.
use kernal.Prelude.{
  ℕ, ◌≡◌, refl, sym, ap, ◌∙◌, inl, inr, Bool, true, false, Bool-cases, List, [], ◌∷◌, ◌++◌,
  if◌then◌else◌, arith,
}
use kernal.Fair.Timeline.{Tree, leaf, node, inorder, descend}

-- Where an entity comes to stand: before the first that it goes before.
abbrev pub insert_before : (ℕ → Bool) → ℕ → List ℕ → List ℕ
insert_before before se [] = se ∷ []
insert_before before se (x ∷ xs) = if before x then se ∷ x ∷ xs else x ∷ insert_before before se xs

abbrev pub All {ℓ} : (ℕ → Type ℓ) → List ℕ → Type ℓ
All P [] = Unit
All P (x ∷ xs) = P x × All P xs

module _ (before : ℕ → Bool) (se : ℕ) where
  insert_before-here :
      (xs : List ℕ) (x : ℕ) (ys : List ℕ)
      → before x ≡ true
      → insert_before before se (xs ++ x ∷ ys) ≡ insert_before before se xs ++ x ∷ ys
  insert_before-here [] x ys b = ground (arith, b)
  insert_before-here (y ∷ xs) x ys b = ground (arith, insert_before-here xs x ys b)

  insert_before-there :
      (xs ys : List ℕ)
      → All (λ y. before y ≡ false) xs
      → insert_before before se (xs ++ ys) ≡ xs ++ insert_before before se ys
  insert_before-there [] ys a = refl
  insert_before-there (x ∷ xs) ys a = ground (arith, insert_before-there xs ys a.1)

  insert_before_past :
      (x : ℕ) (xs : List ℕ)
      → before x ≡ false
      → insert_before before se (x ∷ xs) ≡ x ∷ insert_before before se xs
  insert_before_past x xs b = ground (arith, b)

  -- The entities to go before stand behind all others.
  abbrev pub IsUp : List ℕ → Type 0
  IsUp [] = Unit
  IsUp (x ∷ xs) = (before x ≡ true → All (λ y. before y ≡ true) xs) × IsUp xs

  All-append_left {ℓ} : (P : ℕ → Type ℓ) (xs ys : List ℕ) → All P (xs ++ ys) → All P xs
  All-append_left P [] ys a = tt
  All-append_left P (x ∷ xs) ys a = (a.0, All-append_left P xs ys a.1)

  All-here {ℓ} : (P : ℕ → Type ℓ) (xs : List ℕ) (x : ℕ) (ys : List ℕ) → All P (xs ++ x ∷ ys) → P x
  All-here P [] x ys a = a.0
  All-here P (y ∷ xs) x ys a = All-here P xs x ys a.1

  IsUp-append_left : (xs ys : List ℕ) → IsUp (xs ++ ys) → IsUp xs
  IsUp-append_left [] ys u = tt
  IsUp-append_left (x ∷ xs) ys u =
      (λ b. All-append_left _ xs ys (u.0 b), IsUp-append_left xs ys u.1)

  IsUp-append_right : (xs ys : List ℕ) → IsUp (xs ++ ys) → IsUp ys
  IsUp-append_right [] ys u = u
  IsUp-append_right (x ∷ xs) ys u = IsUp-append_right xs ys u.1

  IsUp-false :
      (xs : List ℕ) (x : ℕ) (ys : List ℕ)
      → IsUp (xs ++ x ∷ ys)
      → before x ≡ false
      → All (λ y. before y ≡ false) xs
  IsUp-false [] x ys u b = tt
  IsUp-false (y ∷ xs) x ys u b = (
    elim (Bool-cases (before y)) [
      | inl t ↦ cc (All-here (λ z. before z ≡ true) xs x ys (u.0 t), b)
      | inr f ↦ f
    ],
    IsUp-false xs x ys u.1 b,
  )

  abbrev pub first : List ℕ → Bool
  first [] = true
  first (x ∷ xs) = before x

  first-true :
      (xs : List ℕ) (x : ℕ) (ys : List ℕ) → before x ≡ true → first (xs ++ x ∷ ys) ≡ first xs
  first-true [] x ys b = b
  first-true (y ∷ xs) x ys b = refl

  first-false :
      (xs : List ℕ) (x : ℕ) (ys : List ℕ)
      → All (λ y. before y ≡ false) xs
      → before x ≡ false
      → first (xs ++ x ∷ ys) ≡ false
  first-false [] x ys a b = b
  first-false (y ∷ xs) x ys a b = a.0

  descend_left :
      (l : Tree) (x : ℕ) (r : Tree)
      → before x ≡ true
      → descend before se (node l x r) ≡ (node (descend before se l).0 x r, (descend before se l).1)
  unfolding descend
  descend_left l x r b = ground (arith, b)

  descend_right :
      (l : Tree) (x : ℕ) (r : Tree)
      → before x ≡ false
      → descend before se (node l x r) ≡ (node l x (descend before se r).0, false)
  unfolding descend
  descend_right l x r b = ground (arith, b)

  -- The descent finds the place of the entity, and whether it is the first.
  pub descend-order :
      (t : Tree)
      → IsUp (inorder t)
      → (inorder (descend before se t).0 ≡ insert_before before se (inorder t))
        × ((descend before se t).1 ≡ first (inorder t))
  unfolding descend
  descend-order leaf u = (refl, refl)
  descend-order (node l x r) u = elim (Bool-cases (before x)) [
    | inl b ↦
        let (o, f) = descend-order l (IsUp-append_left (inorder l) (x ∷ inorder r) u) in
        let e = descend_left l x r b in
        (
          ap (λ q. inorder q.0) e
              ∙ ap (λ ys. ys ++ x ∷ inorder r) o
              ∙ sym (insert_before-here (inorder l) x (inorder r) b),
          ap (λ q. q.1) e ∙ f ∙ sym (first-true (inorder l) x (inorder r) b),
        )
    | inr b ↦
        let low = IsUp-false (inorder l) x (inorder r) u b in
        let (o, f) = descend-order r ((IsUp-append_right (inorder l) (x ∷ inorder r) u).1) in
        let e = descend_right l x r b in
        (
          ap (λ q. inorder q.0) e
              ∙ ap (λ ys. inorder l ++ x ∷ ys) o
              ∙ sym (
                  insert_before-there (inorder l) (x ∷ inorder r) low
                  ∙ ap (λ ys. inorder l ++ ys) (insert_before_past x (inorder r) b)),
          ap (λ q. q.1) e ∙ sym (first-false (inorder l) x (inorder r) low b),
        )
  ]
