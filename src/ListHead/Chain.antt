-- ===== src/ListHead/Chain.antt =====
-- Chains and rings of list heads.
use kernal.Prelude.{◌≡◌, ◌≢◌, List, [], ◌∷◌, ◌++◌, ◌∙◌, arith, sym}
use kernal.ListHead.Distinct.{NotIn, Distinct, Apart, NotIn-append}
use kernal.ListHead.{Ptr, Mem, set_next, set_prev, __list_add, __list_del}

abbrev pub Linked : Mem → Ptr → Ptr → Type 0
Linked h p q = (h.next p ≡ q) × (h.prev q ≡ p)

-- From `a` through `xs` to `b`.
abbrev pub Chain : Mem → Ptr → List Ptr → Ptr → Type 0
Chain h a [] b = Linked h a b
Chain h a (x ∷ xs) b = Linked h a x × Chain h x xs b

-- the node before the end, and the node behind the start
abbrev pub last : Ptr → List Ptr → Ptr
last a [] = a
last a (x ∷ xs) = last x xs

abbrev pub first : List Ptr → Ptr → Ptr
first [] b = b
first (x ∷ xs) b = x

-- A write at an address that the chain does not read leaves it.
pub Chain-set_next :
    (h : Mem) (p v a : Ptr) (xs : List Ptr) (b : Ptr)
    → p ≢ a
    → NotIn p xs
    → Chain h a xs b
    → Chain (set_next p v h) a xs b
Chain-set_next h p v a [] b n m c = ground arith
Chain-set_next h p v a (x ∷ xs) b n m c = (ground arith, Chain-set_next h p v x xs b m.0 m.1 c.1)

pub Chain-set_prev :
    (h : Mem) (p v a : Ptr) (xs : List Ptr) (b : Ptr)
    → p ≢ b
    → NotIn p xs
    → Chain h a xs b
    → Chain (set_prev p v h) a xs b
Chain-set_prev h p v a [] b n m c = ground arith
Chain-set_prev h p v a (x ∷ xs) b n m c = (ground arith, Chain-set_prev h p v x xs b n m.1 c.1)

pub NotIn-last : (p a : Ptr) (xs : List Ptr) → p ≢ a → NotIn p xs → p ≢ last a xs
NotIn-last p a [] n m = n
NotIn-last p a (x ∷ xs) n m = NotIn-last p x xs m.0 m.1

pub NotIn-first : (p b : Ptr) (xs : List Ptr) → p ≢ b → NotIn p xs → p ≢ first xs b
NotIn-first p b [] n m = n
NotIn-first p b (x ∷ xs) n m = m.0

pub Apart-last : (x : Ptr) (xs ws : List Ptr) → Apart (x ∷ xs) ws → NotIn (last x xs) ws
Apart-last x [] ws a = a.0
Apart-last x (y ∷ xs) ws a = Apart-last y xs ws a.1

pub Apart-first :
    (vs : List Ptr) (b : Ptr) (ws : List Ptr) → Apart vs ws → NotIn b ws → NotIn (first vs b) ws
Apart-first [] b ws a n = n
Apart-first (v ∷ vs) b ws a n = a.0

pub Chain-prev :
    (h : Mem) (a : Ptr) (xs : List Ptr) (b : Ptr) → Chain h a xs b → h.prev b ≡ last a xs
Chain-prev h a [] b c = c.1
Chain-prev h a (x ∷ xs) b c = Chain-prev h x xs b c.1

pub Chain-next :
    (h : Mem) (a : Ptr) (xs : List Ptr) (b : Ptr) → Chain h a xs b → h.next a ≡ first xs b
Chain-next h a [] b c = c.0
Chain-next h a (x ∷ xs) b c = c.0.0

-- The writes of `__list_add` at any place of a chain put the new node there.
pub Chain-insert :
    (h : Mem) (new a : Ptr) (xs ys : List Ptr) (b : Ptr)
    → NotIn new (a ∷ xs ++ ys) × (new ≢ b)
    → NotIn a (xs ++ ys)
    → NotIn b (xs ++ ys)
    → Distinct (xs ++ ys)
    → Chain h a (xs ++ ys) b
    → Chain (__list_add new (last a xs) (first ys b) h) a (xs ++ new ∷ ys) b
unfolding __list_add
Chain-insert h new a [] [] b n na nb d c = ground arith
Chain-insert h new a [] (y ∷ ys) b n na nb d c = (
  ground arith,
  (
    ground arith,
    Chain-set_next _ a new y ys b na.0 na.1 (
        Chain-set_prev _ new a y ys b n.1 n.0.1.1 (
          Chain-set_next _ new y y ys b n.0.1.0 n.0.1.1
            (Chain-set_prev _ y new y ys b (λ e. nb.0 (sym e)) d.0 c.1))),
  ),
)
Chain-insert h new a (x ∷ xs) ys b n na nb d c =
    let nl = NotIn-append a xs ys na.1 in
    let bl = NotIn-append b xs ys nb.1 in
    let xl = NotIn-append x xs ys d.0 in
    let la : a ≢ last x xs = NotIn-last a x xs na.0 nl.0 in
    let fx : x ≢ first ys b = NotIn-first x b ys (λ e. nb.0 (sym e)) xl.1 in
    (ground arith, Chain-insert h new x xs ys b (n.0.1, n.1) d.0 nb.1 d.1 c.1)

-- The writes of `__list_del` around an entry of a chain take it out.
pub Chain-remove :
    (h : Mem) (a : Ptr) (xs : List Ptr) (e : Ptr) (ys : List Ptr) (b : Ptr)
    → NotIn a (xs ++ ys)
    → NotIn b (xs ++ ys)
    → Distinct (xs ++ ys)
    → Chain h a (xs ++ e ∷ ys) b
    → Chain (__list_del (last a xs) (first ys b) h) a (xs ++ ys) b
unfolding __list_del
Chain-remove h a [] e [] b na nb d c = ground arith
Chain-remove h a [] e (y ∷ ys) b na nb d c = (
  ground arith,
  Chain-set_next _ a y y ys b na.0 na.1 (Chain-set_prev _ y a y ys b (λ e. nb.0 (sym e)) d.0 c.1.1),
)
Chain-remove h a (x ∷ xs) e ys b na nb d c =
    let nl = NotIn-append a xs ys na.1 in
    let xl = NotIn-append x xs ys d.0 in
    let la : a ≢ last x xs = NotIn-last a x xs na.0 nl.0 in
    let fx : x ≢ first ys b = NotIn-first x b ys (λ e. nb.0 (sym e)) xl.1 in
    (ground arith, Chain-remove h x xs e ys b d.0 nb.1 d.1 c.1)

-- A chain is cut at any of its nodes, and two that meet are joined.
pub Chain-split :
    (h : Mem) (a : Ptr) (xs : List Ptr) (y : Ptr) (ys : List Ptr) (b : Ptr)
    → Chain h a (xs ++ y ∷ ys) b
    → Chain h a xs y × Chain h y ys b
Chain-split h a [] y ys b c = c
Chain-split h a (x ∷ xs) y ys b c = let (l, r) = Chain-split h x xs y ys b c.1 in ((c.0, l), r)

pub Chain-join :
    (h : Mem) (a : Ptr) (xs : List Ptr) (y : Ptr) (ys : List Ptr) (b : Ptr)
    → Chain h a xs y
    → Chain h y ys b
    → Chain h a (xs ++ y ∷ ys) b
Chain-join h a [] y ys b c d = (c, d)
Chain-join h a (x ∷ xs) y ys b c d = (c.0, Chain-join h x xs y ys b c.1 d)

-- The last node is turned to another end.
pub Chain-retarget :
    (h : Mem) (a : Ptr) (xs : List Ptr) (b c : Ptr)
    → NotIn a xs
    → Distinct xs
    → NotIn c xs
    → Chain h a xs b
    → Chain (set_prev c (last a xs) (set_next (last a xs) c h)) a xs c
Chain-retarget h a [] b c na d nc k = ground arith
Chain-retarget h a (x ∷ xs) b c na d nc k =
    let la : a ≢ last x xs = NotIn-last a x xs na.0 na.1 in
    (ground arith, Chain-retarget h x xs b c d.0 d.1 nc.1 k.1)

-- The first node is turned to another start.
pub Chain-restart :
    (h : Mem) (a c : Ptr) (xs : List Ptr) (b : Ptr)
    → NotIn c xs
    → Distinct xs
    → NotIn b xs
    → Chain h a xs b
    → Chain (set_prev (first xs b) c (set_next c (first xs b) h)) c xs b
Chain-restart h a c [] b nc d nb k = ground arith
Chain-restart h a c (x ∷ xs) b nc d nb k = (
  ground arith,
  Chain-set_prev _ x c x xs b (λ e. nb.0 (sym e)) d.0 (Chain-set_next _ c x x xs b nc.0 nc.1 k.1),
)

-- Memories that agree on a chain's addresses agree on the chain.
abbrev pub SameAt : Ptr → Mem → Mem → Type 0
SameAt p h g = (g.next p ≡ h.next p) × (g.prev p ≡ h.prev p)

-- `g` differs from `h` at most at the addresses of `ws`.
abbrev pub SameOutside : List Ptr → Mem → Mem → Type 0
SameOutside ws h g = (p : Ptr) → NotIn p ws → SameAt p h g

pub Chain-SameOutside :
    {h g : Mem} (ws : List Ptr) (a : Ptr) (xs : List Ptr) (b : Ptr)
    → SameOutside ws h g
    → NotIn a ws
    → Apart xs ws
    → NotIn b ws
    → Chain h a xs b
    → Chain g a xs b
Chain-SameOutside ws a [] b s n m k c = ((s a n).0 ∙ c.0, (s b k).1 ∙ c.1)
Chain-SameOutside ws a (x ∷ xs) b s n m k c =
    (((s a n).0 ∙ c.0.0, (s x m.0).1 ∙ c.0.1), Chain-SameOutside ws x xs b s m.0 m.1 k c.1)
