-- ===== src/ListHead/Ring.antt =====
-- kernel/include/list.h: a head and its entries form a ring, and what adding and deleting do to it.
use mathlib.Core.List.{append-nil}
use kernal.Prelude.{◌≡◌, List, [], ◌∷◌, ◌++◌, arith, sym}
use kernal.ListHead.{
  Ptr, Mem, set_next, set_prev, init_list_head, list_poison1, list_poison2, __list_add, list_add,
  list_add_tail, __list_del, list_del, list_del_init,
}
use kernal.ListHead.Distinct.{
  NotIn, Distinct, Apart, NotIn-middle, Distinct-middle, NotIn-append, middle-NotIn,
  middle-Distinct,
}
use kernal.ListHead.Chain.{
  Chain, last, first, SameOutside, Chain-set_next, Chain-set_prev, Chain-SameOutside, Chain-next,
  Chain-prev, Chain-insert, Chain-remove, Chain-split, NotIn-last, NotIn-first,
}

-- The entries `xs` of the list `hd`, in the order of the `next` pointers.
pub record Ring (h : Mem) (hd : Ptr) (xs : List Ptr) : Type 0 where
  pub chain : Chain h hd xs hd
  pub out : NotIn hd xs
  pub distinct : Distinct xs

pub Ring-SameOutside :
    {h g : Mem} (ws : List Ptr) (hd : Ptr) (xs : List Ptr)
    → SameOutside ws h g
    → Apart (hd ∷ xs) ws
    → Ring h hd xs
    → Ring g hd xs
Ring-SameOutside ws hd xs s a r = record {
  chain = Chain-SameOutside ws hd xs hd s a.0 a.1 a.0 r.chain;
  out = r.out;
  distinct = r.distinct;
}

-- Writes at an address that is not in the ring.
pub Ring-set :
    (h : Mem) (p v w hd : Ptr) (xs : List Ptr)
    → NotIn p (hd ∷ xs)
    → Ring h hd xs
    → Ring (set_prev p w (set_next p v h)) hd xs
Ring-set h p v w hd xs n r = record {
  chain = Chain-set_prev _ p w hd xs hd n.0 n.1 (Chain-set_next h p v hd xs hd n.0 n.1 r.chain);
  out = r.out;
  distinct = r.distinct;
}

-- `INIT_LIST_HEAD` makes an empty list, and writes at that head alone.
pub init_list_head-Ring :
    (h : Mem) (list : Ptr)
    → Ring (init_list_head list h) list [] × SameOutside (list ∷ []) h (init_list_head list h)
unfolding init_list_head
init_list_head-Ring h list =
    (record { chain = ground arith; out = tt; distinct = tt }, λ p n. ground arith)

pub insert-Ring :
    (h : Mem) (new hd : Ptr) (xs ys : List Ptr)
    → NotIn new (hd ∷ xs ++ ys)
    → Ring h hd (xs ++ ys)
    → Ring (__list_add new (last hd xs) (first ys hd) h) hd (xs ++ new ∷ ys)
insert-Ring h new hd xs ys n r = record {
  chain = Chain-insert h new hd xs ys hd (n, n.0) r.out r.out r.distinct r.chain;
  out = middle-NotIn hd xs new ys (λ e. n.0 (sym e)) r.out;
  distinct = middle-Distinct xs new ys n.1 r.distinct;
}

-- The writes of `__list_add` fall on the new node and its two neighbours.
pub insert-SameOutside :
    (h : Mem) (new hd : Ptr) (xs ys : List Ptr)
    → SameOutside (new ∷ hd ∷ xs ++ ys) h (__list_add new (last hd xs) (first ys hd) h)
unfolding __list_add
insert-SameOutside h new hd xs ys p n =
    let m = NotIn-append p xs ys n.1.1 in
    let l = NotIn-last p hd xs n.1.0 m.0 in let f = NotIn-first p hd ys n.1.0 m.1 in ground arith

-- For a new node that is not in the list, list_add puts it before the entries of the list and
-- keeps their order, and changes the pointers of no node outside the list and the new node.
pub list_add-Ring :
    (h : Mem) (new hd : Ptr) (xs : List Ptr)
    → NotIn new (hd ∷ xs)
    → Ring h hd xs
    → Ring (list_add new hd h) hd (new ∷ xs) × SameOutside (new ∷ hd ∷ xs) h (list_add new hd h)
unfolding list_add
list_add-Ring h new hd xs n r =
    rw (Chain-next h hd xs hd r.chain)
      (insert-Ring h new hd [] xs n r, insert-SameOutside h new hd [] xs)

-- For a new node that is not in the list, list_add_tail puts it behind the entries of the list and
-- keeps their order, and changes the pointers of no node outside the list and the new node.
pub list_add_tail-Ring :
    (h : Mem) (new hd : Ptr) (xs : List Ptr)
    → NotIn new (hd ∷ xs)
    → Ring h hd xs
    → Ring (list_add_tail new hd h) hd (xs ++ new ∷ [])
      × SameOutside (new ∷ hd ∷ xs) h (list_add_tail new hd h)
unfolding list_add_tail
list_add_tail-Ring h new hd xs n r = rw (Chain-prev h hd xs hd r.chain) (
  insert-Ring h new hd xs [] (rw append-nil n) (rw append-nil r),
  rw append-nil at (insert-SameOutside h new hd xs []),
)

-- The neighbours of an entry.
pub Ring-prev :
    (h : Mem) (hd : Ptr) (xs : List Ptr) (e : Ptr) (ys : List Ptr)
    → Ring h hd (xs ++ e ∷ ys)
    → h.prev e ≡ last hd xs
Ring-prev h hd xs e ys r = Chain-prev h hd xs e (Chain-split h hd xs e ys hd r.chain).0

pub Ring-next :
    (h : Mem) (hd : Ptr) (xs : List Ptr) (e : Ptr) (ys : List Ptr)
    → Ring h hd (xs ++ e ∷ ys)
    → h.next e ≡ first ys hd
Ring-next h hd xs e ys r = Chain-next h e ys hd (Chain-split h hd xs e ys hd r.chain).1

-- An entry of a ring is neither the head nor any other entry.
pub Ring-NotIn :
    {h : Mem} (hd : Ptr) (xs : List Ptr) (e : Ptr) (ys : List Ptr)
    → Ring h hd (xs ++ e ∷ ys)
    → NotIn e (hd ∷ xs ++ ys)
Ring-NotIn hd xs e ys r =
    ((λ q. (NotIn-middle hd xs e ys r.out).0 (sym q)), (Distinct-middle xs e ys r.distinct).0)

remove-SameOutside :
    (h : Mem) (hd : Ptr) (xs ys : List Ptr)
    → SameOutside (hd ∷ xs ++ ys) h (__list_del (last hd xs) (first ys hd) h)
unfolding __list_del
remove-SameOutside h hd xs ys p n =
    let m = NotIn-append p xs ys n.1 in
    let l = NotIn-last p hd xs n.0 m.0 in let f = NotIn-first p hd ys n.0 m.1 in ground arith

-- `__list_del` between the neighbours of an entry takes it out of the ring.
pub unlink-Ring :
    (h : Mem) (hd : Ptr) (xs : List Ptr) (e : Ptr) (ys : List Ptr)
    → Ring h hd (xs ++ e ∷ ys)
    → Ring (__list_del (h.prev e) (h.next e) h) hd (xs ++ ys)
      × SameOutside (hd ∷ xs ++ ys) h (__list_del (h.prev e) (h.next e) h)
unlink-Ring h hd xs e ys r =
    let out = (NotIn-middle hd xs e ys r.out).1 in
    let rest = (Distinct-middle xs e ys r.distinct).1 in
    rw (Ring-prev h hd xs e ys r, Ring-next h hd xs e ys r)
      (
        record {
          chain = Chain-remove h hd xs e ys hd out out rest r.chain;
          out = out;
          distinct = rest;
        },
        remove-SameOutside h hd xs ys,
      )

-- list_del takes an entry out of its list and keeps the order of the others, leaves the two poison
-- values in its pointers, and changes the pointers of no node outside the list.
pub list_del-Ring :
    (h : Mem) (hd : Ptr) (xs : List Ptr) (e : Ptr) (ys : List Ptr)
    → Ring h hd (xs ++ e ∷ ys)
    → Ring (list_del e h) hd (xs ++ ys)
      × ((list_del e h).next e ≡ list_poison1)
      × ((list_del e h).prev e ≡ list_poison2)
      × SameOutside (e ∷ hd ∷ xs ++ ys) h (list_del e h)
unfolding list_del
list_del-Ring h hd xs e ys r =
    let (ring, same) = unlink-Ring h hd xs e ys r in
    (
      Ring-set _ e list_poison1 list_poison2 hd (xs ++ ys) (Ring-NotIn hd xs e ys r) ring,
      ground arith,
      ground arith,
      λ p n. ground (arith, same p n.1),
    )

-- `list_del_init` takes the entry out of its list and leaves it an empty list of its own.
pub list_del_init-Ring :
    (h : Mem) (hd : Ptr) (xs : List Ptr) (e : Ptr) (ys : List Ptr)
    → Ring h hd (xs ++ e ∷ ys)
    → Ring (list_del_init e h) hd (xs ++ ys)
      × Ring (list_del_init e h) e []
      × SameOutside (e ∷ hd ∷ xs ++ ys) h (list_del_init e h)
unfolding list_del_init init_list_head
list_del_init-Ring h hd xs e ys r =
    let (ring, same) = unlink-Ring h hd xs e ys r in
    (
      Ring-set _ e e e hd (xs ++ ys) (Ring-NotIn hd xs e ys r) ring,
      record { chain = ground arith; out = tt; distinct = tt },
      λ p n. ground (arith, same p n.1),
    )
