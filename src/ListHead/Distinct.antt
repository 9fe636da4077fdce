-- ===== src/ListHead/Distinct.antt =====
-- Lists of addresses without repetition.
use kernal.Prelude.{◌≢◌, List, [], ◌∷◌, ◌++◌, sym}
use kernal.ListHead.{Ptr}

abbrev pub NotIn : Ptr → List Ptr → Type 0
NotIn p [] = Unit
NotIn p (x ∷ xs) = (p ≢ x) × NotIn p xs

abbrev pub Distinct : List Ptr → Type 0
Distinct [] = Unit
Distinct (x ∷ xs) = NotIn x xs × Distinct xs

pub NotIn-append : (p : Ptr) (xs ys : List Ptr) → NotIn p (xs ++ ys) → NotIn p xs × NotIn p ys
NotIn-append p [] ys n = (tt, n)
NotIn-append p (x ∷ xs) ys n = let (l, r) = NotIn-append p xs ys n.1 in ((n.0, l), r)

-- Distinctness around a place of a list.
pub NotIn-join : (p : Ptr) (xs ys : List Ptr) → NotIn p xs → NotIn p ys → NotIn p (xs ++ ys)
NotIn-join p [] ys n m = m
NotIn-join p (x ∷ xs) ys n m = (n.0, NotIn-join p xs ys n.1 m)

pub NotIn-middle :
    (p : Ptr) (xs : List Ptr) (e : Ptr) (ys : List Ptr)
    → NotIn p (xs ++ e ∷ ys)
    → (p ≢ e) × NotIn p (xs ++ ys)
NotIn-middle p [] e ys n = n
NotIn-middle p (x ∷ xs) e ys n = let (l, r) = NotIn-middle p xs e ys n.1 in (l, (n.0, r))

pub middle-NotIn :
    (p : Ptr) (xs : List Ptr) (e : Ptr) (ys : List Ptr)
    → p ≢ e
    → NotIn p (xs ++ ys)
    → NotIn p (xs ++ e ∷ ys)
middle-NotIn p [] e ys n m = (n, m)
middle-NotIn p (x ∷ xs) e ys n m = (m.0, middle-NotIn p xs e ys n m.1)

pub Distinct-middle :
    (xs : List Ptr) (e : Ptr) (ys : List Ptr)
    → Distinct (xs ++ e ∷ ys)
    → NotIn e (xs ++ ys) × Distinct (xs ++ ys)
Distinct-middle [] e ys d = d
Distinct-middle (x ∷ xs) e ys d =
    let (n, r) = Distinct-middle xs e ys d.1 in
    let (l, m) = NotIn-middle x xs e ys d.0 in (((λ q. l (sym q)), n), (m, r))

pub middle-Distinct :
    (xs : List Ptr) (e : Ptr) (ys : List Ptr)
    → NotIn e (xs ++ ys)
    → Distinct (xs ++ ys)
    → Distinct (xs ++ e ∷ ys)
middle-Distinct [] e ys n d = (n, d)
middle-Distinct (x ∷ xs) e ys n d =
    (middle-NotIn x xs e ys (λ q. n.0 (sym q)) d.0, middle-Distinct xs e ys n.1 d.1)

-- No element of the first list is in the second.
abbrev pub Apart : List Ptr → List Ptr → Type 0
Apart [] ys = Unit
Apart (x ∷ xs) ys = NotIn x ys × Apart xs ys

pub Distinct-append :
    (xs ys : List Ptr) → Distinct (xs ++ ys) → Distinct xs × Distinct ys × Apart xs ys
Distinct-append [] ys d = (tt, d, tt)
Distinct-append (x ∷ xs) ys d =
    let (n, m) = NotIn-append x xs ys d.0 in
    let (l, r, a) = Distinct-append xs ys d.1 in ((n, l), r, (m, a))

pub append-Distinct :
    (xs ys : List Ptr) → Distinct xs → Distinct ys → Apart xs ys → Distinct (xs ++ ys)
append-Distinct [] ys d e a = e
append-Distinct (x ∷ xs) ys d e a = (NotIn-join x xs ys d.0 a.0, append-Distinct xs ys d.1 e a.1)

pub Apart-NotIn : (p : Ptr) (xs ys : List Ptr) → NotIn p xs → Apart xs ys → Apart xs (p ∷ ys)
Apart-NotIn p [] ys n a = tt
Apart-NotIn p (x ∷ xs) ys n a = (((λ q. n.0 (sym q)), a.0), Apart-NotIn p xs ys n.1 a.1)

pub Apart-tail : (xs : List Ptr) (y : Ptr) (ys : List Ptr) → Apart xs (y ∷ ys) → Apart xs ys
Apart-tail [] y ys a = tt
Apart-tail (x ∷ xs) y ys a = (a.0.1, Apart-tail xs y ys a.1)

pub Apart-head : (xs : List Ptr) (y : Ptr) (ys : List Ptr) → Apart xs (y ∷ ys) → NotIn y xs
Apart-head [] y ys a = tt
Apart-head (x ∷ xs) y ys a = ((λ q. a.0.0 (sym q)), Apart-head xs y ys a.1)

pub Apart-sym : (xs ys : List Ptr) → Apart xs ys → Apart ys xs
Apart-sym xs [] a = tt
Apart-sym xs (y ∷ ys) a = (Apart-head xs y ys a, Apart-sym xs ys (Apart-tail xs y ys a))

pub Apart-nil : (xs : List Ptr) → Apart xs []
Apart-nil [] = tt
Apart-nil (x ∷ xs) = (tt, Apart-nil xs)

pub Apart-append : (xs ys ws : List Ptr) → Apart (xs ++ ys) ws → Apart xs ws × Apart ys ws
Apart-append [] ys ws a = (tt, a)
Apart-append (x ∷ xs) ys ws a = let (l, r) = Apart-append xs ys ws a.1 in ((a.0, l), r)

pub append-Apart : (xs ys ws : List Ptr) → Apart xs ws → Apart ys ws → Apart (xs ++ ys) ws
append-Apart [] ys ws a b = b
append-Apart (x ∷ xs) ys ws a b = (a.0, append-Apart xs ys ws a.1 b)
