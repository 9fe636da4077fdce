-- ===== src/ListHead/Transfer.antt =====
-- kernel/include/list.h: entries that change their place, their list or their identity.
use kernal.Prelude.{◌≡◌, true, false, List, [], ◌∷◌, ◌++◌, arith, sym}
use kernal.ListHead.{
  Ptr, Mem, init_list_head, __list_add, __list_del, list_empty, list_replace, list_replace_init,
  list_move, list_move_tail, list_rotate_left,
}
use kernal.ListHead.Distinct.{
  NotIn, Apart, NotIn-middle, middle-NotIn, Apart-nil, Apart-sym, Apart-NotIn, NotIn-append,
}
use kernal.ListHead.Chain.{SameOutside, last, first, NotIn-last, NotIn-first, Chain-next}
use kernal.ListHead.Ring.{
  Ring, Ring-set, Ring-SameOutside, Ring-NotIn, Ring-prev, Ring-next, insert-Ring, unlink-Ring,
  list_add-Ring, list_add_tail-Ring,
}

-- `list_empty` tells whether the ring has no entry.
pub list_empty-Ring :
    (h : Mem) (hd : Ptr) (xs : List Ptr)
    → Ring h hd xs
    → list_empty hd h ≡ elim xs [ [] ↦ true | x ∷ r ↦ false ]
unfolding list_empty
list_empty-Ring h hd [] r = ground (arith, Chain-next h hd [] hd r.chain)
list_empty-Ring h hd (x ∷ xs) r =
    let o = r.out in ground (arith, Chain-next h hd (x ∷ xs) hd r.chain)

-- Within its own list `list_move` brings an entry to the front.
pub list_move-Ring :
    (h : Mem) (hd : Ptr) (xs : List Ptr) (e : Ptr) (ys : List Ptr)
    → Ring h hd (xs ++ e ∷ ys)
    → Ring (list_move e hd h) hd (e ∷ xs ++ ys)
unfolding list_move
list_move-Ring h hd xs e ys r =
    (list_add-Ring _ e hd (xs ++ ys) (Ring-NotIn hd xs e ys r) (unlink-Ring h hd xs e ys r).0).0

-- Within its own list `list_move_tail` brings an entry to the end.
pub list_move_tail-Ring :
    (h : Mem) (hd : Ptr) (xs : List Ptr) (e : Ptr) (ys : List Ptr)
    → Ring h hd (xs ++ e ∷ ys)
    → Ring (list_move_tail e hd h) hd ((xs ++ ys) ++ e ∷ [])
unfolding list_move_tail
list_move_tail-Ring h hd xs e ys r =
    (list_add_tail-Ring _ e hd (xs ++ ys) (Ring-NotIn hd xs e ys r)
      (unlink-Ring h hd xs e ys r).0).0

-- `list_rotate_left` brings the first entry, if there is one, to the end.
abbrev pub rotate : List Ptr → List Ptr
rotate [] = []
rotate (x ∷ xs) = xs ++ x ∷ []

-- list_rotate_left brings the first entry of a list to its end and keeps the order of the rest; an
-- empty list stays empty.
pub list_rotate_left-Ring :
    (h : Mem) (hd : Ptr) (xs : List Ptr)
    → Ring h hd xs
    → Ring (list_rotate_left hd h) hd (rotate xs)
unfolding list_rotate_left
list_rotate_left-Ring h hd [] r = rw (list_empty-Ring h hd [] r) r
list_rotate_left-Ring h hd (x ∷ xs) r =
    rw (list_empty-Ring h hd (x ∷ xs) r, Chain-next h hd (x ∷ xs) hd r.chain)
      (list_move_tail-Ring h hd [] x xs r)

-- Two lists that share no node, an entry `e` of the first among them.
module _ (h : Mem) (hd : Ptr) (xs : List Ptr) (e : Ptr) (ys : List Ptr) (to : Ptr) (zs : List Ptr)
    (r : Ring h hd (xs ++ e ∷ ys)) (t : Ring h to zs)
    (apart : Apart (to ∷ zs) (hd ∷ xs ++ e ∷ ys)) where
  middle-Apart : (ws : List Ptr) → Apart ws (hd ∷ xs ++ e ∷ ys) → Apart ws (hd ∷ xs ++ ys)
  middle-Apart [] a = tt
  middle-Apart (w ∷ ws) a = ((a.0.0, (NotIn-middle w xs e ys a.0.1).1), middle-Apart ws a.1)

  not-in-middle : (ws : List Ptr) → Apart ws (hd ∷ xs ++ e ∷ ys) → NotIn e ws
  not-in-middle [] a = tt
  not-in-middle (w ∷ ws) a = ((λ q. (NotIn-middle w xs e ys a.0.1).0 (sym q)), not-in-middle ws a.1)

  away : Apart (hd ∷ xs ++ ys) (e ∷ to ∷ zs)
  away =
      Apart-NotIn e (hd ∷ xs ++ ys) (to ∷ zs) (Ring-NotIn hd xs e ys r)
        (Apart-sym (to ∷ zs) (hd ∷ xs ++ ys) (middle-Apart (to ∷ zs) apart))

  unlinked : Ring (__list_del (h.prev e) (h.next e) h) to zs
  unlinked =
      Ring-SameOutside (hd ∷ xs ++ ys) to zs (unlink-Ring h hd xs e ys r).1
        (middle-Apart (to ∷ zs) apart) t

  -- For two lists that share no node, list_move takes an entry out of the one, keeping the order
  -- of the rest, and puts it first in the other.
  pub list_move-other : Ring (list_move e to h) hd (xs ++ ys) × Ring (list_move e to h) to (e ∷ zs)
  unfolding list_move
  list_move-other =
      let (added, same) = list_add-Ring _ e to zs (not-in-middle (to ∷ zs) apart) unlinked in
      (Ring-SameOutside (e ∷ to ∷ zs) hd (xs ++ ys) same away (unlink-Ring h hd xs e ys r).0, added)

  -- `list_move_tail` takes an entry out of one list and puts it last in another.
  pub list_move_tail-other :
      Ring (list_move_tail e to h) hd (xs ++ ys) × Ring (list_move_tail e to h) to (zs ++ e ∷ [])
  unfolding list_move_tail
  list_move_tail-other =
      let (added, same) = list_add_tail-Ring _ e to zs (not-in-middle (to ∷ zs) apart) unlinked in
      (Ring-SameOutside (e ∷ to ∷ zs) hd (xs ++ ys) same away (unlink-Ring h hd xs e ys r).0, added)

-- The writes of `list_replace` are those of an insertion between the neighbours of the old entry.
replace-SameOutside :
    (h : Mem) (hd : Ptr) (xs : List Ptr) (old : Ptr) (ys : List Ptr) (new : Ptr)
    → Ring h hd (xs ++ old ∷ ys)
    → NotIn new (hd ∷ xs ++ old ∷ ys)
    → SameOutside []
        (__list_add new (last hd xs) (first ys hd) (__list_del (h.prev old) (h.next old) h))
        (list_replace old new h)
unfolding list_replace __list_add __list_del
replace-SameOutside h hd xs old ys new r n p m =
    let (ne, fresh) = NotIn-middle new (hd ∷ xs) old ys n in
    let out = Ring-NotIn hd xs old ys r in
    let (f1, f2) = NotIn-append new xs ys fresh.1 in
    let (o1, o2) = NotIn-append old xs ys out.1 in
    let nl = NotIn-last new hd xs fresh.0 f1 in
    let nf = NotIn-first new hd ys fresh.0 f2 in
    let ol = NotIn-last old hd xs out.0 o1 in
    let of = NotIn-first old hd ys out.0 o2 in
    ground (arith, Ring-prev h hd xs old ys r, Ring-next h hd xs old ys r)

-- `list_replace` puts the new node at the place of the old one.
pub list_replace-Ring :
    (h : Mem) (hd : Ptr) (xs : List Ptr) (old : Ptr) (ys : List Ptr) (new : Ptr)
    → Ring h hd (xs ++ old ∷ ys)
    → NotIn new (hd ∷ xs ++ old ∷ ys)
    → Ring (list_replace old new h) hd (xs ++ new ∷ ys)
list_replace-Ring h hd xs old ys new r n =
    let fresh = (NotIn-middle new (hd ∷ xs) old ys n).1 in
    Ring-SameOutside [] hd (xs ++ new ∷ ys) (replace-SameOutside h hd xs old ys new r n)
      (Apart-nil (hd ∷ xs ++ new ∷ ys))
      (insert-Ring _ new hd xs ys fresh (unlink-Ring h hd xs old ys r).0)

-- For a new node that is not in the list, list_replace_init puts it at the place of an entry, and
-- leaves the old entry the head of an empty list.
pub list_replace_init-Ring :
    (h : Mem) (hd : Ptr) (xs : List Ptr) (old : Ptr) (ys : List Ptr) (new : Ptr)
    → Ring h hd (xs ++ old ∷ ys)
    → NotIn new (hd ∷ xs ++ old ∷ ys)
    → Ring (list_replace_init old new h) hd (xs ++ new ∷ ys)
      × Ring (list_replace_init old new h) old []
unfolding list_replace_init init_list_head
list_replace_init-Ring h hd xs old ys new r n =
    let ne = (NotIn-middle new (hd ∷ xs) old ys n).0 in
    let out = Ring-NotIn hd xs old ys r in
    (
      Ring-set _ old old old hd (xs ++ new ∷ ys)
          (out.0, middle-NotIn old xs new ys (λ q. ne (sym q)) out.1)
          (list_replace-Ring h hd xs old ys new r n),
      record { chain = ground arith; out = tt; distinct = tt },
    )
