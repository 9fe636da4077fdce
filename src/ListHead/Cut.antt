-- ===== src/ListHead/Cut.antt =====
-- kernel/include/list.h: `list_cut_position` splits a list behind one of its entries.
use kernal.Prelude.{
  ◌≡◌, refl, ◌≢◌, false, ◌&&◌, not, List, [], ◌∷◌, ◌++◌, arith, sym, ◌==◌, ==_refl,
}
use kernal.ListHead.{
  Ptr, Mem, set_next, set_prev, list_empty, list_is_singular, __list_cut_position,
  list_cut_position,
}
use kernal.ListHead.Distinct.{
  NotIn, NotIn-append, NotIn-join, NotIn-middle, Distinct-append, append-Distinct, Distinct-middle,
  Apart-sym, Apart-tail, Apart-nil, Apart-NotIn, Distinct,
}
use kernal.ListHead.Chain.{
  Chain, first, NotIn-first, Chain-set_next, Chain-set_prev, Chain-split, Chain-join, Chain-restart,
  Chain-next, Apart-first,
}
use kernal.ListHead.Ring.{Ring, Ring-next, Ring-NotIn}
use kernal.ListHead.Transfer.{list_empty-Ring}

first-middle :
    (xs : List Ptr) (e : Ptr) (ys : List Ptr) (b : Ptr) → first (xs ++ e ∷ ys) b ≡ first xs e
first-middle [] e ys b = refl
first-middle (x ∷ xs) e ys b = refl

-- The six writes, with the first entry `f` and the node `n` behind the cut.
abbrev cut_writes : Mem → Ptr → Ptr → Ptr → Ptr → Ptr → Mem
cut_writes h list hd f e n =
    set_prev n hd
      (set_next hd n (set_next e list (set_prev list e (set_prev f list (set_next list f h)))))

-- What is behind the cut, with `f` and `list` not in it.
back-Chain :
    (h : Mem) (list hd f e : Ptr) (ys : List Ptr)
    → NotIn list (hd ∷ ys)
    → NotIn f (hd ∷ ys)
    → NotIn e (hd ∷ ys)
    → NotIn hd ys
    → Distinct ys
    → Chain h e ys hd
    → Chain (cut_writes h list hd f e (first ys hd)) hd ys hd
back-Chain h list hd f e [] nl nf ne nh d c = ground arith
back-Chain h list hd f e (y ∷ ys) nl nf ne nh d c = (
  ground arith,
  Chain-set_prev _ y hd y ys hd (λ q. nh.0 (sym q)) d.0
      (Chain-set_next _ hd y y ys hd nh.0 nh.1 (
        Chain-set_next _ e list y ys hd ne.1.0 ne.1.1 (
          Chain-set_prev _ list e y ys hd nl.0 nl.1.1 (
            Chain-set_prev _ f list y ys hd nf.0 nf.1.1
              (Chain-set_next h list f y ys hd nl.1.0 nl.1.1 c.1))))),
)

-- The ring of `hd` with an entry `e`, and a node `list` outside it.
module _ (h : Mem) (list hd : Ptr) (xs : List Ptr) (e : Ptr) (ys : List Ptr)
    (r : Ring h hd (xs ++ e ∷ ys)) (fresh : NotIn list (hd ∷ xs ++ e ∷ ys)) where
  cut_position-writes :
      __list_cut_position list hd e h ≡ cut_writes h list hd (first xs e) e (first ys hd)
  unfolding __list_cut_position
  cut_position-writes = rw (
    Chain-next h hd (xs ++ e ∷ ys) hd r.chain,
    first-middle xs e ys hd,
    Ring-next h hd xs e ys r,
    ==_refl list,
  )

  front : Ring (cut_writes h list hd (first xs e) e (first ys hd)) list (xs ++ e ∷ [])
  front =
      let (ne, lo) = NotIn-middle list xs e ys fresh.1 in
      let (lx, ly) = NotIn-append list xs ys lo in
      let (he, ho) = NotIn-middle hd xs e ys r.out in
      let (hx, hy) = NotIn-append hd xs ys ho in
      let (dx, dy, xy) = Distinct-append xs (e ∷ ys) r.distinct in
      let (ex, ey) = NotIn-append e xs ys (Distinct-middle xs e ys r.distinct).0 in
      let n_out = Apart-first ys hd xs (Apart-sym xs ys (Apart-tail xs e ys xy)) hx in
      let n_e : e ≢ first ys hd = NotIn-first e hd ys (λ q. he (sym q)) ey in
      let n_list : list ≢ first ys hd = NotIn-first list hd ys fresh.0 ly in
      let start = Chain-restart h hd list xs e lx dx ex (Chain-split h hd xs e ys hd r.chain).0 in
      let fresh0 = fresh.0 in
      record {
        chain =
            Chain-join _ list xs e [] list
              (Chain-set_prev _ (first ys hd) hd list xs e (λ q. n_e (sym q)) n_out
                (Chain-set_next _ hd (first ys hd) list xs e (λ q. fresh.0 (sym q)) hx
                  (Chain-set_next _ e list list xs e (λ q. ne (sym q)) ex
                    (Chain-set_prev _ list e list xs e ne lx start))))
              (ground arith);
        out = NotIn-join list xs (e ∷ []) lx (ne, tt);
        distinct = append-Distinct xs (e ∷ []) dx (tt, tt) (Apart-NotIn e xs [] ex (Apart-nil xs));
      }

  back : Ring (cut_writes h list hd (first xs e) e (first ys hd)) hd ys
  back =
      let (ne, lo) = NotIn-middle list xs e ys fresh.1 in
      let (lx, ly) = NotIn-append list xs ys lo in
      let (he, ho) = NotIn-middle hd xs e ys r.out in
      let (hx, hy) = NotIn-append hd xs ys ho in
      let (dx, dy, xy) = Distinct-append xs (e ∷ ys) r.distinct in
      let f_out =
        Apart-first xs e (hd ∷ ys) (Apart-NotIn hd xs ys hx (Apart-tail xs e ys xy))
          ((λ q. he (sym q)), dy.0) in
      record {
        chain =
            back-Chain h list hd (first xs e) e ys (fresh.0, ly) f_out ((λ q. he (sym q)), dy.0) hy
              dy.1 (Chain-split h hd xs e ys hd r.chain).1;
        out = hy;
        distinct = dy.1;
      }

list_empty-middle :
    (h : Mem) (hd : Ptr) (xs : List Ptr) (e : Ptr) (ys : List Ptr)
    → Ring h hd (xs ++ e ∷ ys)
    → list_empty hd h ≡ false
list_empty-middle h hd [] e ys r = list_empty-Ring h hd (e ∷ ys) r
list_empty-middle h hd (x ∷ xs) e ys r = list_empty-Ring h hd (x ∷ xs ++ e ∷ ys) r

-- Where the list has one entry, it is `e`.
singular-first :
    (h : Mem) (hd : Ptr) (xs : List Ptr) (e : Ptr) (ys : List Ptr)
    → Ring h hd (xs ++ e ∷ ys)
    → (list_is_singular hd h && (not (h.next hd == e) && not (h.prev hd == e))) ≡ false
unfolding list_is_singular
singular-first h hd [] e ys r = let c = r.chain.0 in ground arith
singular-first h hd (x ∷ xs) e ys r =
    let c = r.chain.0 in
    let n = Chain-next h x (xs ++ e ∷ ys) hd r.chain.1 in
    let (he, ho) = NotIn-middle hd xs e ys r.out.1 in
    let o : hd ≢ first (xs ++ e ∷ ys) hd =
      rw (first-middle xs e ys hd) (NotIn-first hd e xs he (NotIn-append hd xs ys ho).0) in
    ground arith

-- For an entry of a list and a node outside that list, list_cut_position moves the entries up to
-- and with that entry to the list of the node, and leaves those behind it, both in their order.
pub list_cut_position-Ring :
    (h : Mem) (list hd : Ptr) (xs : List Ptr) (entry : Ptr) (ys : List Ptr)
    → Ring h hd (xs ++ entry ∷ ys)
    → NotIn list (hd ∷ xs ++ entry ∷ ys)
    → Ring (list_cut_position list hd entry h) list (xs ++ entry ∷ [])
      × Ring (list_cut_position list hd entry h) hd ys
unfolding list_cut_position
list_cut_position-Ring h list hd xs e ys r fresh =
    let other : (e == hd) ≡ false = let o = (Ring-NotIn hd xs e ys r).0 in ground arith in
    rw
      (
        list_empty-middle h hd xs e ys r,
        singular-first h hd xs e ys r,
        other,
        cut_position-writes h list hd xs e ys r fresh,
      )
      (front h list hd xs e ys r fresh, back h list hd xs e ys r fresh)
