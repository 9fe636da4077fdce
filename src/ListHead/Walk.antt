-- ===== src/ListHead/Walk.antt =====
-- kernel/include/list.h: the loops that walk a list.
use kernal.Prelude.{
  ℕ, zero, suc, ◌+◌, ◌<◌, ◌≡◌, Bool, false, ◌||◌, some, List, [], ◌∷◌, arith, ◌==◌, length,
  get_elem?,
}
use kernal.ListHead.{
  Ptr, Mem, count_loop, list_count_nodes, contains_loop, list_contains, nth_loop, list_get_nth,
}
use kernal.ListHead.Distinct.{NotIn}
use kernal.ListHead.Chain.{Chain}
use kernal.ListHead.Ring.{Ring}

-- Membership, as a test.
abbrev pub has : Ptr → List Ptr → Bool
has p [] = false
has p (x ∷ xs) = (x == p) || has p xs

module _ (h : Mem) (hd : Ptr) where
  count_loop-length :
      (k a : ℕ) (xs : List Ptr) (n : ℕ)
      → NotIn hd xs
      → Chain h a xs hd
      → length xs < k
      → count_loop k hd (h.next a) n h ≡ some (n + length xs)
  unfolding count_loop
  count_loop-length zero a xs n o c f = absurd (omega arith)
  count_loop-length (suc k) a [] n o c f = ground arith
  count_loop-length (suc k) a (x ∷ xs) n o c f =
      ground (arith, count_loop-length k x xs (n + 1) o.1 c.1 (omega arith))

  -- With more rounds than entries `list_count_nodes` returns the number of entries.
  pub list_count_nodes-length :
      (fuel : ℕ) (xs : List Ptr)
      → Ring h hd xs
      → length xs < fuel
      → list_count_nodes fuel hd h ≡ some (length xs)
  unfolding list_count_nodes
  list_count_nodes-length fuel xs r f =
      ground (arith, count_loop-length fuel hd xs 0 r.out r.chain f)

  contains_loop-has :
      (k a : ℕ) (xs : List Ptr) (node : Ptr)
      → NotIn hd xs
      → Chain h a xs hd
      → length xs < k
      → contains_loop k hd (h.next a) node h ≡ some (has node xs)
  unfolding contains_loop
  contains_loop-has zero a xs node o c f = absurd (omega arith)
  contains_loop-has (suc k) a [] node o c f = ground arith
  contains_loop-has (suc k) a (x ∷ xs) node o c f =
      ground (arith, contains_loop-has k x xs node o.1 c.1 (omega arith))

  -- With more rounds than entries `list_contains` tells whether the node is an entry.
  pub list_contains-has :
      (fuel : ℕ) (xs : List Ptr) (node : Ptr)
      → Ring h hd xs
      → length xs < fuel
      → list_contains fuel hd node h ≡ some (has node xs)
  unfolding list_contains
  list_contains-has fuel xs node r f = contains_loop-has fuel hd xs node r.out r.chain f

  nth_loop-get_elem? :
      (k a : ℕ) (xs : List Ptr) (i n : ℕ)
      → NotIn hd xs
      → Chain h a xs hd
      → length xs < k
      → nth_loop k hd (h.next a) i (i + n) h ≡ some (get_elem? xs n)
  unfolding nth_loop
  nth_loop-get_elem? zero a xs i n o c f = absurd (omega arith)
  nth_loop-get_elem? (suc k) a [] i n o c f = ground arith
  nth_loop-get_elem? (suc k) a (x ∷ xs) i zero o c f = ground arith
  nth_loop-get_elem? (suc k) a (x ∷ xs) i (suc n) o c f =
      let shift : i + suc n ≡ i + 1 + n = omega arith in
      let step : (x == hd) ≡ false = let ne = o.0 in ground arith in
      let later : (i == i + 1 + n) ≡ false = ground arith in
      rw (c.0.0, step, shift, later) (nth_loop-get_elem? k x xs (i + 1) n o.1 c.1 (omega arith))

  -- With more rounds than the list has entries, list_get_nth ends, and returns the entry at the
  -- index, or NULL where the index is past the end.
  pub list_get_nth-get_elem? :
      (fuel : ℕ) (xs : List Ptr) (n : ℕ)
      → Ring h hd xs
      → length xs < fuel
      → list_get_nth fuel hd n h ≡ some (get_elem? xs n)
  unfolding list_get_nth
  list_get_nth-get_elem? fuel xs n r f =
      ground (arith, nth_loop-get_elem? fuel hd xs 0 n r.out r.chain f)
