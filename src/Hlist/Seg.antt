-- ===== src/Hlist/Seg.antt =====
-- kernel/include/list.h: the nodes behind a cell.
use kernal.Prelude.{false, ◌==◌, ◌≡◌, ◌≢◌, refl, sym, subst, ◌∙◌, List, [], ◌∷◌, ◌++◌, arith}
use kernal.ListHead.{Ptr}
use kernal.ListHead.Distinct.{NotIn, Distinct, NotIn-append, NotIn-middle}
use kernal.Hlist.{HlistMem, set_cell, set_pprev, point_back}

-- From the cell `c` the pointers lead through the nodes `xs`, each of which points back to the cell
-- before it, to NULL.
abbrev pub Seg : HlistMem → Ptr → List Ptr → Type 0
Seg m c [] = m.next c ≡ 0
Seg m c (x ∷ xs) = (m.next c ≡ x) × (x ≢ 0) × (m.pprev x ≡ c) × Seg m x xs

-- the last cell
abbrev pub last : Ptr → List Ptr → Ptr
last c [] = c
last c (x ∷ xs) = last x xs

-- Memories that agree on the cells and the nodes of a segment.
pub Seg-ext :
    (m m' : HlistMem) (c : Ptr) (xs : List Ptr)
    → m'.next c ≡ m.next c
    → ((x : Ptr) → (NotIn x xs → ⊥) → (m'.next x ≡ m.next x) × (m'.pprev x ≡ m.pprev x))
    → Seg m c xs
    → Seg m' c xs
Seg-ext m m' c [] e f s = e ∙ s
Seg-ext m m' c (x ∷ xs) e f s =
    let here = f x (λ n. n.0 refl) in
    (e ∙ s.0, s.1, here.1 ∙ s.2, Seg-ext m m' x xs here.0 (λ y k. f y (λ n. k n.1)) s.3)

-- Writes off the segment.
pub Seg-set_cell :
    (m : HlistMem) (p v c : Ptr) (xs : List Ptr)
    → p ≢ c
    → NotIn p xs
    → Seg m c xs
    → Seg (set_cell p v m) c xs
Seg-set_cell m p v c [] n k s = ground arith
Seg-set_cell m p v c (x ∷ xs) n k s = (ground arith, s.1, s.2, Seg-set_cell m p v x xs k.0 k.1 s.3)

pub Seg-set_pprev :
    (m : HlistMem) (p v c : Ptr) (xs : List Ptr)
    → NotIn p xs
    → Seg m c xs
    → Seg (set_pprev p v m) c xs
Seg-set_pprev m p v c [] k s = s
Seg-set_pprev m p v c (x ∷ xs) k s = (s.0, s.1, ground arith, Seg-set_pprev m p v x xs k.1 s.3)

-- the first node, or NULL
abbrev pub first : List Ptr → Ptr
first [] = 0
first (x ∷ xs) = x

pub NotIn-first : (p : Ptr) (xs : List Ptr) → p ≢ 0 → NotIn p xs → p ≢ first xs
NotIn-first p [] n k = n
NotIn-first p (x ∷ xs) n k = k.0

pub NotIn-last : (p c : Ptr) (xs : List Ptr) → p ≢ c → NotIn p xs → p ≢ last c xs
NotIn-last p c [] n k = n
NotIn-last p c (x ∷ xs) n k = NotIn-last p x xs k.0 k.1

-- The node `n` behind the nodes `xs` points back to the last of them.
pub Seg-place :
    (m : HlistMem) (c : Ptr) (xs : List Ptr) (n : Ptr) (ys : List Ptr)
    → Seg m c (xs ++ n ∷ ys)
    → (m.next (last c xs) ≡ n) × (n ≢ 0) × (m.pprev n ≡ last c xs) × Seg m n ys
Seg-place m c [] n ys s = s
Seg-place m c (x ∷ xs) n ys s = Seg-place m x xs n ys s.3

pub Seg-next : (m : HlistMem) (c : Ptr) (xs : List Ptr) → Seg m c xs → m.next c ≡ first xs
Seg-next m c [] s = s
Seg-next m c (x ∷ xs) s = s.0

-- The writes of `__hlist_del` around a node.
abbrev pub unlink : Ptr → Ptr → HlistMem → HlistMem
unlink pprev next m = point_back next pprev (set_cell pprev next m)

pub Seg-remove :
    (m : HlistMem) (c : Ptr) (xs : List Ptr) (n : Ptr) (ys : List Ptr)
    → NotIn c (xs ++ ys)
    → Distinct (xs ++ ys)
    → Seg m c (xs ++ n ∷ ys)
    → Seg (unlink (last c xs) (first ys) m) c (xs ++ ys)
Seg-remove m c [] n [] out d s = ground arith
Seg-remove m c [] n (y ∷ ys) out d s =
    let test : (y == 0) ≡ false = let z = s.3.1 in ground arith in
    let is : unlink c y m ≡ set_pprev y c (set_cell c y m) = rw test refl in
    subst (λ w. Seg w c (y ∷ ys)) (sym is)
      (
        ground arith,
        s.3.1,
        ground arith,
        Seg-set_pprev _ y c y ys d.0 (Seg-set_cell m c y y ys out.0 out.1 s.3.3),
      )
Seg-remove m c (x ∷ xs) n ys out d s =
    let parts = NotIn-append x xs ys d.0 in
    let far = NotIn-append c xs ys out.1 in
    let cell : c ≢ last x xs = NotIn-last c x xs out.0 far.0 in
    let back : x ≢ first ys = NotIn-first x ys s.1 parts.1 in
    let z = s.1 in (ground arith, s.1, ground arith, Seg-remove m x xs n ys d.0 d.1 s.3)

-- The writes of `hlist_add_before` around a node.
abbrev pub link : Ptr → Ptr → Ptr → HlistMem → HlistMem
link pprev n next m = set_pprev next n (set_cell pprev n (set_pprev n pprev (set_cell n next m)))

pub Seg-insert :
    (m : HlistMem) (n c : Ptr) (xs : List Ptr) (y : Ptr) (ys : List Ptr)
    → n ≢ 0
    → NotIn n (c ∷ xs ++ y ∷ ys)
    → NotIn c (xs ++ y ∷ ys)
    → Distinct (xs ++ y ∷ ys)
    → Seg m c (xs ++ y ∷ ys)
    → Seg (link (last c xs) n y m) c (xs ++ n ∷ y ∷ ys)
Seg-insert m n c [] y ys nz new out d s = (
  ground arith,
  nz,
  ground arith,
  (
    ground arith,
    s.1,
    ground arith,
    Seg-set_pprev _ y n y ys d.0 (
        Seg-set_cell _ c n y ys out.0 out.1
          (Seg-set_pprev _ n c y ys new.1.1 (Seg-set_cell m n y y ys new.1.0 new.1.1 s.3))),
  ),
)
Seg-insert m n c (x ∷ xs) y ys nz new out d s =
    let far = NotIn-middle c xs y ys out.1 in
    let cell : c ≢ last x xs = NotIn-last c x xs out.0 (NotIn-append c xs ys far.1).0 in
    let back = NotIn-middle x xs y ys d.0 in
    (ground arith, s.1, ground arith, Seg-insert m n x xs y ys nz new.1 d.0 d.1 s.3)
