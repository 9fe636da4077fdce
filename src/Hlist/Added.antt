-- ===== src/Hlist/Added.antt =====
-- kernel/include/list.h: nodes that come to the list of a head of one pointer, and a list that moves.
use kernal.Prelude.{◌≡◌, ◌≢◌, refl, sym, subst, false, List, [], ◌∷◌, ◌++◌, ◌==◌, ==_refl, arith}
use kernal.ListHead.{Ptr}
use kernal.ListHead.Distinct.{NotIn, NotIn-middle, middle-NotIn, middle-Distinct}
use kernal.Hlist.{HlistMem, set_cell, set_pprev, hlist_add_head, hlist_add_before, hlist_move_list}
use kernal.Hlist.Seg.{last, Seg-set_cell, Seg-set_pprev, Seg-place, Seg-insert, link}
use kernal.Hlist.Listed.{IsHlist, SameOutside}

-- For a node that is not in the list and not NULL, hlist_add_head puts it before the nodes of the
-- list and keeps their order, and changes nothing outside the list and the node.
pub hlist_add_head-IsHlist :
    (m : HlistMem) (n h : Ptr) (xs : List Ptr)
    → n ≢ 0
    → NotIn n (h ∷ xs)
    → IsHlist m h xs
    → IsHlist (hlist_add_head n h m) h (n ∷ xs) × SameOutside (n ∷ h ∷ xs) m (hlist_add_head n h m)
unfolding hlist_add_head
hlist_add_head-IsHlist m n h [] nz new l =
    let s = l.seg in
    (
      record {
        some_head = l.some_head;
        seg = (ground arith, nz, ground arith, ground arith);
        out = ((λ e. new.0 (sym e)), tt);
        distinct = (tt, tt);
      },
      λ p k. ground arith,
    )
hlist_add_head-IsHlist m n h (x ∷ xs) nz new l =
    let (to, some_x, back, rest) = l.seg in
    let test : (x == 0) ≡ false = ground arith in
    let m3 = set_pprev x n (set_cell n x m) in
    let is : hlist_add_head n h m ≡ set_pprev n h (set_cell h n m3) = rw (to, test) refl in
    subst (λ w. IsHlist w h (n ∷ x ∷ xs) × SameOutside (n ∷ h ∷ x ∷ xs) m w) (sym is)
      (
        record {
          some_head = l.some_head;
          seg = (
            ground arith,
            nz,
            ground arith,
            (
              ground arith,
              some_x,
              ground arith,
              Seg-set_pprev _ n h x xs new.1.1 (
                  Seg-set_cell _ h n x xs l.out.0 l.out.1 (
                    Seg-set_pprev _ x n x xs l.distinct.0
                      (Seg-set_cell m n x x xs new.1.0 new.1.1 rest))),
            ),
          );
          out = ((λ e. new.0 (sym e)), l.out);
          distinct = (new.1, l.distinct);
        },
        λ p k. ground arith,
      )

-- For a node that is not in the list and not NULL, hlist_add_before puts it before the node `y` of
-- the list and keeps the order of the others, and changes nothing outside the list and the node.
pub hlist_add_before-IsHlist :
    (m : HlistMem) (n h : Ptr) (xs : List Ptr) (y : Ptr) (ys : List Ptr)
    → n ≢ 0
    → NotIn n (h ∷ xs ++ y ∷ ys)
    → IsHlist m h (xs ++ y ∷ ys)
    → IsHlist (hlist_add_before n y m) h (xs ++ n ∷ y ∷ ys)
unfolding hlist_add_before
hlist_add_before-IsHlist m n h xs y ys nz new l =
    let differ = (NotIn-middle n xs y ys new.1).0 in
    let apart : (y == n) ≡ false = ground arith in
    let (_, _, back, _) = Seg-place m h xs y ys l.seg in
    let is : hlist_add_before n y m ≡ link (last h xs) n y m = rw (apart, back) refl in
    subst (λ w. IsHlist w h (xs ++ n ∷ y ∷ ys)) (sym is)
      (record {
        some_head = l.some_head;
        seg = Seg-insert m n h xs y ys nz new l.out l.distinct l.seg;
        out = middle-NotIn h xs n (y ∷ ys) (λ e. new.0 (sym e)) l.out;
        distinct = middle-Distinct xs n (y ∷ ys) new.1 l.distinct;
      })

-- What `hlist_move_list` does to a list.
abbrev pub Moved : HlistMem → Ptr → Ptr → List Ptr → HlistMem → Type 0
Moved m old new [] m' = m' ≡ m
Moved m old new (x ∷ xs) m' = IsHlist m' new (x ∷ xs) × IsHlist m' old []

-- For a head that is not in the list and not NULL, hlist_move_list gives a list that is not empty to
-- it, whatever it had, and leaves the old head empty; an empty list it does not move, and the new
-- head keeps what it had.
pub hlist_move_list-Moved :
    (m : HlistMem) (old new : Ptr) (xs : List Ptr)
    → new ≢ 0
    → NotIn new (old ∷ xs)
    → IsHlist m old xs
    → Moved m old new xs (hlist_move_list old new m)
unfolding hlist_move_list
hlist_move_list-Moved m old new [] nz out l = rw l.seg refl
hlist_move_list-Moved m old new (x ∷ xs) nz out l =
    let (to, some_x, back, rest) = l.seg in
    let test : (x == 0) ≡ false = ground arith in
    let m2 = set_pprev x new (set_cell new x m) in
    let is : hlist_move_list old new m ≡ set_cell old 0 m2 = rw (to, ==_refl new, test) refl in
    let tail =
      Seg-set_pprev (set_cell new x m) x new x xs l.distinct.0
        (Seg-set_cell m new x x xs out.1.0 out.1.1 rest) in
    subst (λ w. IsHlist w new (x ∷ xs) × IsHlist w old []) (sym is)
      (
        record {
          some_head = nz;
          seg =
              (ground arith, some_x, ground arith, Seg-set_cell m2 old 0 x xs l.out.0 l.out.1 tail);
          out = out.1;
          distinct = l.distinct;
        },
        record { some_head = l.some_head; seg = ground arith; out = tt; distinct = tt },
      )
