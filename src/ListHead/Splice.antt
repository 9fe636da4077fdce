-- ===== src/ListHead/Splice.antt =====
-- kernel/include/list.h: the splices, which move all entries of one list into another.
use mathlib.Core.List.{append-nil}
use kernal.Prelude.{◌≡◌, refl, ◌≢◌, List, [], ◌∷◌, ◌++◌, arith, sym}
use kernal.ListHead.{
  Ptr, Mem, set_next, set_prev, init_list_head, __list_splice, list_splice, list_splice_tail,
  list_splice_init, list_splice_tail_init,
}
use kernal.ListHead.Distinct.{
  NotIn, Distinct, Apart, NotIn-append, NotIn-join, Apart-sym, Apart-head, Apart-tail, Apart-append,
  append-Apart, Distinct-append, append-Distinct,
}
use kernal.ListHead.Chain.{
  Chain, last, first, NotIn-last, NotIn-first, Chain-set_next, Chain-set_prev, Chain-retarget,
  Chain-next, Chain-prev, Apart-last, Apart-first,
}
use kernal.ListHead.Ring.{Ring, Ring-set, init_list_head-Ring}
use kernal.ListHead.Transfer.{list_empty-Ring}

-- What follows the first node of a chain.
abbrev Rest : Mem → List Ptr → Ptr → Type 0
Rest h [] b = Unit
Rest h (v ∷ vs) b = Chain h v vs b

Chain-Rest : (h : Mem) (a : Ptr) (us : List Ptr) (b : Ptr) → Chain h a us b → Rest h us b
Chain-Rest h a [] b c = tt
Chain-Rest h a (u ∷ us) b c = c.1

extend :
    (h : Mem) (a : Ptr) (xs vs : List Ptr) (b : Ptr)
    → Chain h a xs (first vs b)
    → Rest h vs b
    → Chain h a (xs ++ vs) b
extend h a [] [] b c r = c
extend h a [] (v ∷ vs) b c r = (c, r)
extend h a (x ∷ xs) vs b c r = (c.0, extend h x xs vs b c.1 r)

-- The four writes, with the segment from `x` through `xs` put between `p` and `n`.
abbrev splice_writes : Mem → Ptr → Ptr → List Ptr → Ptr → Mem
splice_writes h p x xs n =
    set_prev n (last x xs) (set_next (last x xs) n (set_next p x (set_prev x p h)))

module _ (h : Mem) (l x : Ptr) (xs : List Ptr) (c : Chain h x xs l) (d : Distinct (x ∷ xs))
    (lx : x ≢ l) where
  Rest-splice :
      (p : Ptr) (vs : List Ptr) (b : Ptr)
      → NotIn p vs
      → NotIn b vs
      → Distinct vs
      → NotIn b (x ∷ xs)
      → Apart vs (x ∷ xs)
      → Rest h vs b
      → Rest (splice_writes h p x xs (first vs b)) vs b
  Rest-splice p [] b np nb dv nx av r = tt
  Rest-splice p (v ∷ vs) b np nb dv nx av r =
      let out = Apart-last x xs vs (Apart-sym vs (x ∷ xs) av.1) in
      let lv = NotIn-last v x xs av.0.0 av.0.1 in
      Chain-set_prev _ v (last x xs) v vs b (λ e. nb.0 (sym e)) dv.0
        (Chain-set_next _ (last x xs) v v vs b (λ e. lv (sym e)) out
          (Chain-set_next _ p x v vs b np.0 np.1
            (Chain-set_prev h x p v vs b (λ e. nx.0 (sym e)) (Apart-sym vs (x ∷ xs) av.1).0 r)))

  Chain-splice :
      (a : Ptr) (us vs : List Ptr) (b : Ptr)
      → NotIn a (us ++ vs)
      → NotIn b (us ++ vs)
      → Distinct (us ++ vs)
      → NotIn a (x ∷ xs)
      → NotIn b (x ∷ xs)
      → Apart us (x ∷ xs)
      → Apart vs (x ∷ xs)
      → Chain h a (us ++ vs) b
      → Chain (splice_writes h (last a us) x xs (first vs b)) a (us ++ x ∷ (xs ++ vs)) b
  Chain-splice a [] vs b na nb dv ax bx au av k =
      let al : a ≢ last x xs = NotIn-last a x xs ax.0 ax.1 in
      let n = Apart-first vs b (x ∷ xs) av bx in
      let n0 = n.0 in
      let segment = Chain-set_next _ a x x xs l ax.0 ax.1 (Chain-set_prev h x a x xs l lx d.0 c) in
      (
        ground arith,
        extend _ x xs vs b (Chain-retarget _ x xs l (first vs b) d.0 d.1 n.1 segment)
            (Rest-splice a vs b na nb dv bx av (Chain-Rest h a vs b k)),
      )
  Chain-splice a (u ∷ us) vs b na nb dv ax bx au av k =
      let (a1, a2) = NotIn-append a us vs na.1 in
      let (u1, u2) = NotIn-append u us vs dv.0 in
      let al : a ≢ last x xs = NotIn-last a x xs ax.0 ax.1 in
      let au' : a ≢ last u us = NotIn-last a u us na.0 a1 in
      let uf : u ≢ first vs b = NotIn-first u b vs (λ e. nb.0 (sym e)) u2 in
      let ux = au.0.0 in (ground arith, Chain-splice u us vs b dv.0 nb.1 dv.1 au.0 bx au.1 av k.1)

-- The entries of `l` between any two neighbours of the ring of `hd`.
module _ (h : Mem) (l x : Ptr) (xs : List Ptr) (hd : Ptr) (us vs : List Ptr) (r : Ring h l (x ∷ xs))
    (t : Ring h hd (us ++ vs)) (apart : Apart (hd ∷ us ++ vs) (l ∷ x ∷ xs)) where
  entries : Apart (us ++ vs) (x ∷ xs)
  entries = Apart-tail (us ++ vs) l (x ∷ xs) apart.1

  splice-Ring : Ring (splice_writes h (last hd us) x xs (first vs hd)) hd (us ++ x ∷ (xs ++ vs))
  splice-Ring =
      let (au, av) = Apart-append us vs (x ∷ xs) entries in
      let (nu, nv) = NotIn-append hd us vs t.out in
      let (du, dv, uv) = Distinct-append us vs t.distinct in
      record {
        chain =
            Chain-splice h l x xs r.chain.1 r.distinct (λ e. r.out.0 (sym e)) hd us vs hd t.out
              t.out t.distinct apart.0.1 apart.0.1 au av t.chain;
        out = NotIn-join hd us (x ∷ (xs ++ vs)) nu (NotIn-join hd (x ∷ xs) vs apart.0.1 nv);
        distinct =
            append-Distinct us (x ∷ (xs ++ vs)) du
              (append-Distinct (x ∷ xs) vs r.distinct dv (Apart-sym vs (x ∷ xs) av))
              (Apart-sym (x ∷ (xs ++ vs)) us
                (append-Apart (x ∷ xs) vs us (Apart-sym us (x ∷ xs) au) (Apart-sym us vs uv)));
      }

  list_splice-writes :
      __list_splice l (last hd us) (first vs hd) h ≡ splice_writes h (last hd us) x xs (first vs hd)
  unfolding __list_splice
  list_splice-writes =
      rw (Chain-next h l (x ∷ xs) l r.chain, Chain-prev h l (x ∷ xs) l r.chain) refl

  old-NotIn : NotIn l (hd ∷ us ++ x ∷ (xs ++ vs))
  old-NotIn =
      let ol = Apart-head (hd ∷ us ++ vs) l (x ∷ xs) apart in
      let (nu, nv) = NotIn-append l us vs ol.1 in
      (ol.0, NotIn-join l us (x ∷ (xs ++ vs)) nu (NotIn-join l (x ∷ xs) vs r.out nv))

  spliced : Ring (__list_splice l (last hd us) (first vs hd) h) hd (us ++ x ∷ (xs ++ vs))
  spliced = rw list_splice-writes splice-Ring

  reset :
      Ring
        (init_list_head l (__list_splice l (last hd us) (first vs hd) h))
        hd
        (us ++ x ∷ (xs ++ vs))
  unfolding init_list_head
  reset = Ring-set _ l l l hd (us ++ x ∷ (xs ++ vs)) old-NotIn spliced

-- `list_splice` puts the entries of one list before those of another, in their order.
pub list_splice-Ring :
    (h : Mem) (l : Ptr) (xs : List Ptr) (hd : Ptr) (ys : List Ptr)
    → Ring h l xs
    → Ring h hd ys
    → Apart (hd ∷ ys) (l ∷ xs)
    → Ring (list_splice l hd h) hd (xs ++ ys)
unfolding list_splice
list_splice-Ring h l [] hd ys r t a = rw (list_empty-Ring h l [] r) t
list_splice-Ring h l (x ∷ xs) hd ys r t a =
    rw (list_empty-Ring h l (x ∷ xs) r, Chain-next h hd ys hd t.chain)
      (spliced h l x xs hd [] ys r t a)

-- `list_splice_tail` puts the entries of one list behind those of another, in their order.
pub list_splice_tail-Ring :
    (h : Mem) (l : Ptr) (xs : List Ptr) (hd : Ptr) (ys : List Ptr)
    → Ring h l xs
    → Ring h hd ys
    → Apart (hd ∷ ys) (l ∷ xs)
    → Ring (list_splice_tail l hd h) hd (ys ++ xs)
unfolding list_splice_tail
list_splice_tail-Ring h l [] hd ys r t a = rw (list_empty-Ring h l [] r, append-nil) t
list_splice_tail-Ring h l (x ∷ xs) hd ys r t a =
    let s = spliced h l x xs hd ys [] r (rw append-nil t) (rw append-nil a) in
    rw (list_empty-Ring h l (x ∷ xs) r, Chain-prev h hd ys hd t.chain) (rw append-nil at s)

-- For two lists that share no node, list_splice_init puts the entries of the first before those of
-- the second, both in their order, and leaves the first list empty; the first list may be empty.
pub list_splice_init-Ring :
    (h : Mem) (l : Ptr) (xs : List Ptr) (hd : Ptr) (ys : List Ptr)
    → Ring h l xs
    → Ring h hd ys
    → Apart (hd ∷ ys) (l ∷ xs)
    → Ring (list_splice_init l hd h) hd (xs ++ ys) × Ring (list_splice_init l hd h) l []
unfolding list_splice_init
list_splice_init-Ring h l [] hd ys r t a = rw (list_empty-Ring h l [] r) (t, r)
list_splice_init-Ring h l (x ∷ xs) hd ys r t a =
    rw (list_empty-Ring h l (x ∷ xs) r, Chain-next h hd ys hd t.chain)
      (reset h l x xs hd [] ys r t a, (init_list_head-Ring _ l).0)

-- `list_splice_tail_init` also leaves the emptied list a list with no entry.
pub list_splice_tail_init-Ring :
    (h : Mem) (l : Ptr) (xs : List Ptr) (hd : Ptr) (ys : List Ptr)
    → Ring h l xs
    → Ring h hd ys
    → Apart (hd ∷ ys) (l ∷ xs)
    → Ring (list_splice_tail_init l hd h) hd (ys ++ xs) × Ring (list_splice_tail_init l hd h) l []
unfolding list_splice_tail_init
list_splice_tail_init-Ring h l [] hd ys r t a = rw (list_empty-Ring h l [] r, append-nil) (t, r)
list_splice_tail_init-Ring h l (x ∷ xs) hd ys r t a =
    let s = reset h l x xs hd ys [] r (rw append-nil t) (rw append-nil a) in
    rw (list_empty-Ring h l (x ∷ xs) r, Chain-prev h hd ys hd t.chain)
      (rw append-nil at s, (init_list_head-Ring _ l).0)
