-- ===== src/Fair/Sorted.antt =====
-- kernel/core/sched/sched_fair.c: the tree of waiting entities is in the order of their keys, and
-- `rb_leftmost` is its first.
use kernal.Prelude.{
  ℕ, ◌≡◌, refl, sym, ap, subst, ◌∙◌, inl, inr, Bool, true, Bool-cases, some, List, [], ◌∷◌, ◌==◌,
  if◌then◌else◌, arith,
}
use kernal.Prelude.Int.{ℤ, ◌≤ℤ◌, ltb_ℤ}
use kernal.Buddy.{remove}
use kernal.Fair.Timeline.{
  inorder, head?, successor, RbOps, CfsRq, entity_key, points_to, __enqueue_entity,
  __dequeue_entity,
}
use kernal.Fair.Order.{insert_before, All, IsUp, first, descend-order}

module _ (key : ℕ → ℤ) where
  abbrev pub IsSorted : List ℕ → Type 0
  IsSorted [] = Unit
  IsSorted (x ∷ xs) = All (λ y. key x ≤ℤ key y) xs × IsSorted xs

  module _ (se : ℕ) where
    abbrev before : ℕ → Bool
    before y = ltb_ℤ (key se) (key y)

    above :
        (x : ℕ) (xs : List ℕ)
        → before x ≡ true
        → All (λ y. key x ≤ℤ key y) xs
        → All (λ y. before y ≡ true) xs
    above x [] b a = tt
    above x (y ∷ xs) b a = (ground arith, above x xs b a.1)

    IsSorted-IsUp : (xs : List ℕ) → IsSorted xs → IsUp before se xs
    IsSorted-IsUp [] s = tt
    IsSorted-IsUp (x ∷ xs) s = ((λ b. above x xs b s.0), IsSorted-IsUp xs s.1)

    le-All :
        (z x : ℕ) (xs : List ℕ)
        → key z ≤ℤ key x
        → All (λ y. key x ≤ℤ key y) xs
        → All (λ y. key z ≤ℤ key y) xs
    le-All z x [] l a = tt
    le-All z x (y ∷ xs) l a = (omega arith, le-All z x xs l a.1)

    All-insert :
        (x : ℕ) (xs : List ℕ)
        → key x ≤ℤ key se
        → All (λ y. key x ≤ℤ key y) xs
        → All (λ y. key x ≤ℤ key y) (insert_before before se xs)
    All-insert x [] l a = (l, tt)
    All-insert x (y ∷ xs) l a = elim (Bool-cases (before y)) [
      | inl b ↦ rw b (l, a)
      | inr b ↦ rw b (a.0, All-insert x xs l a.1)
    ]

    IsSorted-insert : (xs : List ℕ) → IsSorted xs → IsSorted (insert_before before se xs)
    IsSorted-insert [] s = (tt, tt)
    IsSorted-insert (x ∷ xs) s = elim (Bool-cases (before x)) [
      | inl b ↦ rw b ((ground arith, le-All se x xs (ground arith) s.0), s)
      | inr b ↦ rw b (All-insert x xs (ground arith) s.0, IsSorted-insert xs s.1)
    ]

    first-insert :
        (xs : List ℕ)
        → (if first before se xs then some se else head? xs) ≡ head? (insert_before before se xs)
    first-insert [] = refl
    first-insert (x ∷ xs) = ground arith

  All-remove : (P : ℕ → Type 0) (q : ℕ) (xs : List ℕ) → All P xs → All P (remove q xs)
  unfolding remove
  All-remove P q [] a = tt
  All-remove P q (x ∷ xs) a = elim (Bool-cases (x == q)) [
    | inl b ↦ rw b a.1
    | inr b ↦ rw b (a.0, All-remove P q xs a.1)
  ]

  IsSorted-remove : (q : ℕ) (xs : List ℕ) → IsSorted xs → IsSorted (remove q xs)
  unfolding remove
  IsSorted-remove q [] s = tt
  IsSorted-remove q (x ∷ xs) s = elim (Bool-cases (x == q)) [
    | inl b ↦ rw b s.1
    | inr b ↦ rw b (All-remove _ q xs s.0, IsSorted-remove q xs s.1)
  ]

first-remove :
    (se : ℕ) (xs : List ℕ)
    → (if points_to (head? xs) se then successor se xs else head? xs) ≡ head? (remove se xs)
unfolding remove
first-remove se [] = refl
first-remove se (x ∷ xs) = ground arith

pub record IsTimeline (c : CfsRq) : Type 0 where
  pub sorted : IsSorted (entity_key c) (inorder c.tasks_timeline)
  pub leftmost : c.rb_leftmost ≡ head? (inorder c.tasks_timeline)

-- Where `__enqueue_entity` puts an entity: behind those whose key is not above its own.
abbrev pub goes_before : CfsRq → ℕ → ℕ → Bool
goes_before c se entry = ltb_ℤ (entity_key c se) (entity_key c entry)

module _ (R : RbOps) (c : CfsRq) (se : ℕ) (v : IsTimeline c) where
  abbrev waiting : List ℕ
  waiting = inorder c.tasks_timeline

  pub enqueued-order :
      inorder (__enqueue_entity R se c).tasks_timeline ≡ insert_before (goes_before c se) se waiting
  unfolding __enqueue_entity
  enqueued-order =
      R.insert-order _
      ∙ (descend-order (goes_before c se) se c.tasks_timeline
          (IsSorted-IsUp (entity_key c) se waiting v.sorted)).0

  enqueued-leftmost :
      (__enqueue_entity R se c).rb_leftmost ≡ head? (insert_before (goes_before c se) se waiting)
  unfolding __enqueue_entity entity_key
  enqueued-leftmost =
      rw
        (
          (descend-order (goes_before c se) se c.tasks_timeline
              (IsSorted-IsUp (entity_key c) se waiting v.sorted)).1,
          v.leftmost,
        )
        (first-insert (entity_key c) se waiting)

  -- For a tree in the order of the keys whose first entity is rb_leftmost, and a red-black tree
  -- library that keeps the order of a tree: __enqueue_entity puts the entity behind those whose
  -- key is not above its own and before the others, and the tree is still in the order of the keys
  -- with rb_leftmost its first.
  pub __enqueue_entity-IsTimeline :
      IsTimeline (__enqueue_entity R se c)
      × (inorder (__enqueue_entity R se c).tasks_timeline
          ≡ insert_before (goes_before c se) se (inorder c.tasks_timeline))
  __enqueue_entity-IsTimeline = (
    record {
      sorted =
          unfold __enqueue_entity entity_key in
          subst (λ l. IsSorted (entity_key c) l) (sym enqueued-order)
            (IsSorted-insert (entity_key c) se waiting v.sorted);
      leftmost = enqueued-leftmost ∙ ap head? (sym enqueued-order);
    },
    enqueued-order,
  )

  -- For a tree in the order of the keys whose first entity is rb_leftmost, and a red-black tree
  -- library that erases and steps in that order: __dequeue_entity takes the entity out, and the
  -- tree is still in the order of the keys with rb_leftmost its first.
  pub __dequeue_entity-IsTimeline :
      IsTimeline (__dequeue_entity R se c)
      × (inorder (__dequeue_entity R se c).tasks_timeline ≡ remove se (inorder c.tasks_timeline))
  unfolding __dequeue_entity
  __dequeue_entity-IsTimeline = (
    record {
      sorted =
          unfold entity_key in
          subst (λ l. IsSorted (entity_key c) l) (sym (R.erase-order se c.tasks_timeline))
            (IsSorted-remove (entity_key c) se waiting v.sorted);
      leftmost =
          rw (R.next-order se c.tasks_timeline, v.leftmost, R.erase-order se c.tasks_timeline)
            (first-remove se waiting);
    },
    R.erase-order se c.tasks_timeline,
  )
