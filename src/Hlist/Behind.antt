-- ===== src/Hlist/Behind.antt =====
-- kernel/include/list.h: `hlist_add_behind`.
use mathlib.Core.List.{append_assoc}
use kernal.Prelude.{◌≡◌, ◌≢◌, refl, sym, subst, false, List, [], ◌∷◌, ◌++◌, ◌==◌, ==_refl, arith}
use kernal.ListHead.{Ptr}
use kernal.ListHead.Distinct.{
  NotIn, Distinct, NotIn-append, NotIn-join, NotIn-middle, middle-NotIn, Distinct-middle,
  append-Distinct, Apart-NotIn, Apart-nil,
}
use kernal.Hlist.{HlistMem, set_cell, set_pprev, __hlist_del, hlist_del, hlist_add_behind}
use kernal.Hlist.Seg.{Seg, first, NotIn-first, Seg-place, Seg-next, unlink}
use kernal.Hlist.Listed.{IsHlist, IsHlist-ext, IsHlist-set, hlist_del-IsHlist}

-- A list with the node `n` behind its node `p`, which has `ys` behind it. Where `p` was the last, `n`
-- is in the list. Otherwise the node behind still points back to `p`, and deleting it takes `n` out
-- of the list too.
abbrev pub Behind : HlistMem → Ptr → Ptr → List Ptr → Ptr → List Ptr → Type 0
Behind m n h xs p [] = IsHlist m h (xs ++ p ∷ n ∷ [])
Behind m n h xs p (y ∷ ys) =
    (m.next p ≡ n) × (m.next n ≡ y) × (m.pprev y ≡ p) × IsHlist (hlist_del y m) h (xs ++ p ∷ ys)

-- The last node gets `n` behind it.
Seg-end :
    (m : HlistMem) (n c : Ptr) (xs : List Ptr) (p : Ptr)
    → n ≢ 0
    → NotIn n (c ∷ xs ++ p ∷ [])
    → NotIn c (xs ++ p ∷ [])
    → Distinct (xs ++ p ∷ [])
    → Seg m c (xs ++ p ∷ [])
    → Seg (set_pprev n p (set_cell p n (set_cell n 0 m))) c (xs ++ p ∷ n ∷ [])
Seg-end m n c [] p nz new out d s =
    (ground arith, s.1, ground arith, (ground arith, nz, ground arith, ground arith))
Seg-end m n c (x ∷ xs) p nz new out d s =
    let far = (NotIn-middle c xs p [] out.1).0 in
    let near = (NotIn-middle n xs p [] new.1.1).0 in
    (ground arith, s.1, ground arith, Seg-end m n x xs p nz new.1 d.0 d.1 s.3)

-- The writes of `hlist_del` at a node whose neighbours are known.
del_is :
    (w : HlistMem) (y p f : Ptr)
    → w.pprev y ≡ p
    → p ≢ 0
    → w.next y ≡ f
    → hlist_del y w ≡ set_pprev y 0x200 (set_cell y 0x100 (unlink p f w))
unfolding hlist_del __hlist_del
del_is w y p f e z g = let test : (p == 0) ≡ false = ground arith in rw (e, test, g) refl

-- The node `n` is lost to the list: deleting `y` does what it did before, but for the node itself.
del_same :
    (m : HlistMem) (n p y f : Ptr)
    → n ≢ y
    → n ≢ p
    → n ≢ f
    → y ≢ p
    → (q : Ptr)
    → ((set_pprev y 0x200 (
            set_cell y 0x100
              (unlink p f (set_cell p n (set_pprev n p (set_cell p n (set_cell n y m))))))).next
          q
        ≡ (set_pprev n p (set_cell n y (set_pprev y 0x200 (set_cell y 0x100 (unlink p f m))))).next
            q)
      × ((set_pprev y 0x200 (
              set_cell y 0x100
                (unlink p f (set_cell p n (set_pprev n p (set_cell p n (set_cell n y m))))))).pprev
            q
          ≡ (set_pprev n p
                (set_cell n y (set_pprev y 0x200 (set_cell y 0x100 (unlink p f m))))).pprev
              q)
del_same m n p y f a b c d q = (ground arith, ground arith)

-- For a node that is not in the list and not NULL, hlist_add_behind puts it behind the last node.
-- Behind any other node `p` it links it forward only: the node that followed `p` still points back
-- to `p`, and hlist_del of that node takes both out of the list.
pub hlist_add_behind-Behind :
    (m : HlistMem) (n h : Ptr) (xs : List Ptr) (p : Ptr) (ys : List Ptr)
    → n ≢ 0
    → NotIn n (h ∷ xs ++ p ∷ ys)
    → IsHlist m h (xs ++ p ∷ ys)
    → Behind (hlist_add_behind n p m) n h xs p ys
unfolding hlist_add_behind
hlist_add_behind-Behind m n h xs p [] nz new l =
    let place = Seg-place m h xs p [] l.seg in
    let m1 = set_pprev n p (set_cell p n (set_cell n 0 m)) in
    let np = (NotIn-middle n xs p [] new.1).0 in
    let apart : (n == p) ≡ false = ground arith in
    let is : hlist_add_behind n p m ≡ m1 = rw (place.3, apart, ==_refl n) refl in
    subst (λ w. IsHlist w h (xs ++ p ∷ n ∷ [])) (sym is)
      (record {
        some_head = l.some_head;
        seg = Seg-end m n h xs p nz new l.out l.distinct l.seg;
        out =
            subst (NotIn h) (append_assoc xs (p ∷ []) (n ∷ []))
              (NotIn-join h (xs ++ p ∷ []) (n ∷ []) l.out ((λ e. new.0 (sym e)), tt));
        distinct = subst Distinct (append_assoc xs (p ∷ []) (n ∷ [])) (
            append-Distinct (xs ++ p ∷ []) (n ∷ []) l.distinct (tt, tt)
              (Apart-NotIn n (xs ++ p ∷ []) [] new.1 (Apart-nil (xs ++ p ∷ []))));
      })
hlist_add_behind-Behind m n h xs p (y ∷ ys) nz new l =
    let (_, some_p, _, (to, some_y, back, rest)) = Seg-place m h xs p (y ∷ ys) l.seg in
    let np = NotIn-middle n xs p (y ∷ ys) new.1 in
    let ny = NotIn-middle n xs y ys np.1 in
    let py = (NotIn-append p xs (y ∷ ys) (Distinct-middle xs p (y ∷ ys) l.distinct).0).1.0 in
    let np0 = np.0 in
    let ny0 = ny.0 in
    let nf = NotIn-first n ys nz (NotIn-append n xs ys ny.1).1 in
    let apart : (n == p) ≡ false = ground arith in
    let test : (y == 0) ≡ false = ground arith in
    let m2 = set_cell p n (set_pprev n p (set_cell p n (set_cell n y m))) in
    let is : hlist_add_behind n p m ≡ m2 = rw (to, apart, ==_refl n, test) refl in
    let deleted = del_is m y p (first ys) back some_p (Seg-next m y ys rest) in
    let deleted2 =
      del_is m2 y p (first ys) (ground arith) some_p (ground (arith, Seg-next m y ys rest)) in
    let before = subst (IsHlist m h) (sym (append_assoc xs (p ∷ []) (y ∷ ys))) l in
    let left =
      subst (IsHlist (hlist_del y m) h) (append_assoc xs (p ∷ []) ys)
        (hlist_del-IsHlist m h (xs ++ p ∷ []) y ys before).0 in
    let unlinked = subst (λ w. IsHlist w h (xs ++ p ∷ ys)) deleted left in
    let out : NotIn n (xs ++ p ∷ ys) = middle-NotIn n xs p ys np.0 ny.1 in
    let lost =
      IsHlist-ext _ _ h (xs ++ p ∷ ys) (del_same m n p y (first ys) ny0 np0 nf (λ e. py (sym e)))
        (IsHlist-set _ n y p h (xs ++ p ∷ ys) (new.0, out) unlinked) in
    subst (λ w. Behind w n h xs p (y ∷ ys)) (sym is)
      (
        ground arith,
        ground arith,
        ground arith,
        subst (λ w. IsHlist w h (xs ++ p ∷ ys)) (sym deleted2) lost,
      )
