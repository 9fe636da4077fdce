-- ===== src/Hlist/Listed.antt =====
-- kernel/include/list.h: what adding and deleting do to the list of a head of one pointer.
use kernal.Prelude.{◌≡◌, ◌≢◌, refl, sym, subst, false, List, [], ◌∷◌, ◌++◌, ==_refl, arith}
use kernal.ListHead.{Ptr}
use kernal.ListHead.Distinct.{NotIn, Distinct, NotIn-append, NotIn-middle, Distinct-middle}
use kernal.Hlist.{
  HlistMem, set_cell, set_pprev, init_hlist_node, hlist_unhashed, __hlist_del, hlist_del,
  hlist_del_init,
}
use kernal.Hlist.Seg.{
  Seg, Seg-ext, last, first, NotIn-last, Seg-set_cell, Seg-set_pprev, Seg-place, Seg-next,
  Seg-remove, unlink,
}

-- The nodes `xs` of the head `h`, in order.
pub record IsHlist (m : HlistMem) (h : Ptr) (xs : List Ptr) : Type 0 where
  pub some_head : h ≢ 0
  pub seg : Seg m h xs
  pub out : NotIn h xs
  pub distinct : Distinct xs

-- Both pointers at an address.
abbrev pub SameAt : Ptr → HlistMem → HlistMem → Type 0
SameAt p m m' = (m'.next p ≡ m.next p) × (m'.pprev p ≡ m.pprev p)

abbrev pub SameOutside : List Ptr → HlistMem → HlistMem → Type 0
SameOutside ws m m' = (p : Ptr) → NotIn p ws → SameAt p m m'

pub IsHlist-ext :
    (m m' : HlistMem) (h : Ptr) (xs : List Ptr)
    → ((p : Ptr) → SameAt p m m')
    → IsHlist m h xs
    → IsHlist m' h xs
IsHlist-ext m m' h xs same l = record {
  some_head = l.some_head;
  seg = Seg-ext m m' h xs (same h).0 (λ x _. same x) l.seg;
  out = l.out;
  distinct = l.distinct;
}

-- Writes at a node outside the list.
pub IsHlist-set :
    (m : HlistMem) (p v w h : Ptr) (xs : List Ptr)
    → NotIn p (h ∷ xs)
    → IsHlist m h xs
    → IsHlist (set_pprev p w (set_cell p v m)) h xs
IsHlist-set m p v w h xs n l = record {
  some_head = l.some_head;
  seg = Seg-set_pprev _ p w h xs n.1 (Seg-set_cell m p v h xs n.0 n.1 l.seg);
  out = l.out;
  distinct = l.distinct;
}

-- The neighbours of a node of the list.
pub node-place :
    (m : HlistMem) (h : Ptr) (xs : List Ptr) (n : Ptr) (ys : List Ptr)
    → IsHlist m h (xs ++ n ∷ ys)
    → (__hlist_del n m ≡ unlink (last h xs) (first ys) m) × (hlist_unhashed n m ≡ false)
unfolding __hlist_del
node-place m h xs n ys l =
    let (_, _, back, rest) = Seg-place m h xs n ys l.seg in
    let head_out = NotIn-append h xs (n ∷ ys) l.out in
    (rw (back, Seg-next m n ys rest) refl, hashed back (last_some xs l.some_head l.seg))
  where
    last_some : {c : Ptr} (xs : List Ptr) → c ≢ 0 → Seg m c (xs ++ n ∷ ys) → last c xs ≢ 0
    last_some [] z s = z
    last_some (x ∷ xs) z s = last_some xs s.1 s.3

    hashed : {p : Ptr} → m.pprev n ≡ p → p ≢ 0 → hlist_unhashed n m ≡ false
    hashed e z = ground arith

unlink-IsHlist :
    (m : HlistMem) (h : Ptr) (xs : List Ptr) (n : Ptr) (ys : List Ptr)
    → IsHlist m h (xs ++ n ∷ ys)
    → IsHlist (__hlist_del n m) h (xs ++ ys)
unlink-IsHlist m h xs n ys l =
    let out = (NotIn-middle h xs n ys l.out).1 in
    let apart = (Distinct-middle xs n ys l.distinct).1 in
    subst (λ w. IsHlist w h (xs ++ ys)) (sym (node-place m h xs n ys l).0)
      (record {
        some_head = l.some_head;
        seg = Seg-remove m h xs n ys out apart l.seg;
        out = out;
        distinct = apart;
      })

unlink-SameOutside :
    (m : HlistMem) (h : Ptr) (xs : List Ptr) (n : Ptr) (ys : List Ptr)
    → IsHlist m h (xs ++ n ∷ ys)
    → SameOutside (h ∷ xs ++ ys) m (__hlist_del n m)
unlink-SameOutside m h xs n ys l =
    subst (SameOutside (h ∷ xs ++ ys) m) (sym (node-place m h xs n ys l).0) (λ p k.
      let far = NotIn-append p xs ys k.1 in
      let cell = NotIn-last p h xs k.0 far.0 in off p ys far.1 cell)
  where
    off :
        (p : Ptr) (ys : List Ptr) {c : Ptr}
        → NotIn p ys
        → p ≢ c
        → SameAt p m (unlink c (first ys) m)
    off p [] k z = ground arith
    off p (y ∷ ys) k z = ground arith

-- A node is neither the head nor any other node.
pub node-NotIn :
    {m : HlistMem} (h : Ptr) (xs : List Ptr) (n : Ptr) (ys : List Ptr)
    → IsHlist m h (xs ++ n ∷ ys)
    → NotIn n (h ∷ xs ++ ys)
node-NotIn h xs n ys l =
    ((λ q. (NotIn-middle h xs n ys l.out).0 (sym q)), (Distinct-middle xs n ys l.distinct).0)

-- hlist_del takes a node of a list out of it and keeps the order of the others, leaves the two
-- poison values in its pointers, and changes nothing outside the list.
pub hlist_del-IsHlist :
    (m : HlistMem) (h : Ptr) (xs : List Ptr) (n : Ptr) (ys : List Ptr)
    → IsHlist m h (xs ++ n ∷ ys)
    → IsHlist (hlist_del n m) h (xs ++ ys)
      × ((hlist_del n m).next n ≡ 0x100)
      × ((hlist_del n m).pprev n ≡ 0x200)
      × SameOutside (n ∷ h ∷ xs ++ ys) m (hlist_del n m)
unfolding hlist_del
hlist_del-IsHlist m h xs n ys l =
    let m1 = __hlist_del n m in
    rw (node-place m h xs n ys l).1 (
      IsHlist-set m1 n 0x100 0x200 h (xs ++ ys) (node-NotIn h xs n ys l)
          (unlink-IsHlist m h xs n ys l),
      ground arith,
      ground arith,
      λ p k. ground (arith, unlink-SameOutside m h xs n ys l p k.1),
    )

-- hlist_del_init takes a node of a list out of it and keeps the order of the others, leaves the node
-- unhashed, so that the same call again changes nothing, and changes nothing outside the list.
pub hlist_del_init-IsHlist :
    (m : HlistMem) (h : Ptr) (xs : List Ptr) (n : Ptr) (ys : List Ptr)
    → IsHlist m h (xs ++ n ∷ ys)
    → IsHlist (hlist_del_init n m) h (xs ++ ys)
      × (hlist_del_init n (hlist_del_init n m) ≡ hlist_del_init n m)
      × SameOutside (n ∷ h ∷ xs ++ ys) m (hlist_del_init n m)
unfolding hlist_del_init
hlist_del_init-IsHlist m h xs n ys l =
    let m1 = __hlist_del n m in
    let is : hlist_del_init n m ≡ init_hlist_node n m1 = rw (node-place m h xs n ys l).1 refl in
    subst
      (λ w. IsHlist w h (xs ++ ys) × (hlist_del_init n w ≡ w) × SameOutside (n ∷ h ∷ xs ++ ys) m w)
      (sym is)
      (
        IsHlist-set m1 n 0 0 h (xs ++ ys) (node-NotIn h xs n ys l) (unlink-IsHlist m h xs n ys l),
        rw (==_refl n) refl,
        λ p k. ground (arith, unlink-SameOutside m h xs n ys l p k.1),
      )
