-- ===== src/Fair/Least.antt =====
-- kernel/core/sched/sched_fair.c: with no buddy set, the entity of the least key runs next.
use kernal.Prelude.{ℕ, ◌≡◌, refl, sym, subst, ◌∙◌, none, some, List, [], ◌∷◌, arith}
use kernal.Prelude.Int.{ℤ, ◌≤ℤ◌}
use kernal.Task.Fields.{Pointer}
use kernal.Fair.Timeline.{inorder, head?, RbOps, CfsRq, entity_key, __pick_first_entity}
use kernal.Fair.Order.{All}
use kernal.Fair.Sorted.{IsSorted, IsTimeline}
use kernal.Fair.Pick.{PickOps, or_curr, unless_behind, pick_next_entity}

-- No entity is to be taken first or to be passed over.
pub record NoBuddies (c : CfsRq) : Type 0 where
  pub next : c.next ≡ none
  pub last : c.last ≡ none
  pub skip : c.skip ≡ none

pick_first :
    (P : PickOps) (R : RbOps) (c : CfsRq)
    → NoBuddies c
    → (pick_next_entity P R c none).0 ≡ c.rb_leftmost
unfolding pick_next_entity or_curr unless_behind __pick_first_entity
pick_first P R c b = ground arith

IsSorted-least :
    (key : ℕ → ℤ) (xs : List ℕ) (x : ℕ)
    → IsSorted key xs
    → head? xs ≡ some x
    → All (λ y. key x ≤ℤ key y) xs
IsSorted-least key [] x s e = tt
IsSorted-least key (y ∷ xs) x s e =
    subst (λ z. All (λ w. key z ≤ℤ key w) (y ∷ xs)) (some_injective y x e) (omega arith, s.0)
  where
    some_injective : (a b : ℕ) → some a ≡ some b → a ≡ b
    some_injective a b q = ground arith

-- What may be picked: nothing from an empty tree, and otherwise an entity of the least key.
abbrev pub Least : CfsRq → Pointer → Type 0
Least c none = inorder c.tasks_timeline ≡ []
Least c (some se) =
    (head? (inorder c.tasks_timeline) ≡ some se)
    × All (λ y. entity_key c se ≤ℤ entity_key c y) (inorder c.tasks_timeline)

Least-head :
    (c : CfsRq) (p : Pointer)
    → IsSorted (entity_key c) (inorder c.tasks_timeline)
    → head? (inorder c.tasks_timeline) ≡ p
    → Least c p
Least-head c none s e = head-none (inorder c.tasks_timeline) e
  where
    head-none : (xs : List ℕ) → head? xs ≡ none → xs ≡ []
    head-none [] q = refl
    head-none (x ∷ xs) q = absurd (ground arith)
Least-head c (some se) s e = (e, IsSorted-least (entity_key c) (inorder c.tasks_timeline) se s e)

-- For a tree in the order of the keys whose first entity is rb_leftmost, with none of next, last
-- and skip set and no current entity given: pick_next_entity returns NULL for an empty tree, and
-- otherwise the first entity, whose key no waiting entity goes below.
pub pick_next_entity-Least :
    (P : PickOps) (R : RbOps) (c : CfsRq)
    → IsTimeline c
    → NoBuddies c
    → Least c (pick_next_entity P R c none).0
pick_next_entity-Least P R c v b =
    Least-head c (pick_next_entity P R c none).0 v.sorted (sym (pick_first P R c b ∙ v.leftmost))
