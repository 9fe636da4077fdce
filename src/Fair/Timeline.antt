-- ===== src/Fair/Timeline.antt =====
-- kernel/core/sched/sched_fair.c: the tree of the waiting entities.
use kernal.Prelude.{
  ℕ, ◌+◌, ◌-◌, ◌%◌, ◌^◌, ◌≡◌, Bool, true, false, Option, none, some, List, [], ◌∷◌, ◌++◌, ◌==◌, ltb,
  if◌then◌else◌,
}
use kernal.Prelude.Int.{ℤ, pos, negsuc, ltb_ℤ}
use kernal.Buddy.{remove}
use kernal.Task.Fields.{Pointer, LoadWeight, SchedEntity}

-- A node holds the address of its entity.
pub data Tree : Type 0 where
  leaf : Tree
  node : Tree → ℕ → Tree → Tree

abbrev pub inorder : Tree → List ℕ
inorder leaf = []
inorder (node l x r) = inorder l ++ x ∷ inorder r

abbrev pub head? {ℓ} : {A : Type ℓ} → List A → Option A
head? [] = none
head? (x ∷ xs) = some x

-- The entry behind `x`.
abbrev pub successor : ℕ → List ℕ → Option ℕ
successor x [] = none
successor x (y ∷ ys) = if y == x then head? ys else successor x ys

-- The red-black tree of the rbtree library: it rebalances, erases and steps in the order of the tree.
pub record RbOps : Type 0 where
  pub rb_insert_color : Tree → Tree
  pub rb_erase : ℕ → Tree → Tree
  pub rb_next : ℕ → Tree → Option ℕ
  pub insert-order : (t : Tree) → inorder (rb_insert_color t) ≡ inorder t
  pub erase-order : (x : ℕ) (t : Tree) → inorder (rb_erase x t) ≡ remove x (inorder t)
  pub next-order : (x : ℕ) (t : Tree) → rb_next x t ≡ successor x (inorder t)

-- `struct cfs_rq`, less the bandwidth control, with the entities by address.
pub record CfsRq : Type 0 where
  pub load : LoadWeight
  pub nr_running : ℕ
  pub h_nr_running : ℕ
  pub exec_clock : ℕ
  pub min_vruntime : ℕ
  pub tasks_timeline : Tree
  pub rb_leftmost : Pointer
  pub curr : Pointer
  pub next : Pointer
  pub last : Pointer
  pub skip : Pointer
  pub entity : ℕ → SchedEntity

-- The number of 32 bits as an s64, which is an int.
abbrev pub to_s64 : ℕ → ℤ
to_s64 x = if ltb (x % 2 ^ 32) (2 ^ 31) then pos (x % 2 ^ 32) else negsuc (2 ^ 32 - 1 - x % 2 ^ 32)

unfoldable pub entity_key : CfsRq → ℕ → ℤ
entity_key c se = to_s64 ((c.entity se).vruntime + 2 ^ 64 - c.min_vruntime)

-- The descent of `__enqueue_entity`, with what becomes of `leftmost`; `before x` is the test at `x`.
unfoldable pub descend : (ℕ → Bool) → ℕ → Tree → Tree × Bool
descend before se leaf = (node leaf se leaf, true)
descend before se (node l x r) = elim (before x) [
  | true ↦ (node (descend before se l).0 x r, (descend before se l).1)
  | false ↦ (node l x (descend before se r).0, false)
]

-- Whether the pointer is to the entity.
abbrev pub points_to : Pointer → ℕ → Bool
points_to none se = false
points_to (some x) se = x == se

module _ (R : RbOps) where
  open R use {rb_insert_color, rb_erase, rb_next}

  unfoldable pub __enqueue_entity : ℕ → CfsRq → CfsRq
  __enqueue_entity se c =
      let before = λ (entry : ℕ). ltb_ℤ (entity_key c se) (entity_key c entry) in
      let (t, leftmost) = descend before se c.tasks_timeline in
      record c {
        rb_leftmost = if leftmost then some se else c.rb_leftmost;
        tasks_timeline = rb_insert_color t;
      }

  unfoldable pub __dequeue_entity : ℕ → CfsRq → CfsRq
  __dequeue_entity se c = record c {
    rb_leftmost = if points_to c.rb_leftmost se then rb_next se c.tasks_timeline else c.rb_leftmost;
    tasks_timeline = rb_erase se c.tasks_timeline;
  }

  unfoldable pub __pick_first_entity : CfsRq → Pointer
  __pick_first_entity c = c.rb_leftmost

  unfoldable pub __pick_next_entity : ℕ → CfsRq → Pointer
  __pick_next_entity se c = rb_next se c.tasks_timeline
