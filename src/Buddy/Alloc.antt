-- ===== src/Buddy/Alloc.antt =====
-- kernel/mm/buddy.c: `__rmqueue_smallest` takes a block of the wanted order out of the free lists.
use kernal.Prelude.{
  ℕ, zero, suc, ◌+◌, ◌-◌, ◌^◌, ◌≤◌, ◌<◌, ◌≡◌, ◌≢◌, false, inl, inr, ap, ◌∙◌, sym, refl, arith,
  ==_refl, List-cases, Option, none, some, List, [], ◌∷◌,
}
use native.Mathlib.Decide.{dec_lt}
use native.Mathlib.Nat.{one-le-pow}
use kernal.Page.{PageOps}
use kernal.Buddy.{
  Zone, max_order, migrate_types, ulong_mod, take_page, smallest_loop, __rmqueue_smallest, expand,
  __del_page_from_free_list,
}
use kernal.Buddy.Bits.{Aligned, Aligned-mono, two_pow_mono, two_pow_suc}
use kernal.Buddy.Measure.{measure, weigh, is}
use kernal.Buddy.Valid.{IsValid, listed_flag}
use kernal.Buddy.Del.{measure-del, del-IsValid, del-mem_map, del_flag}
use kernal.Buddy.Add.{IsValid-touch}
use kernal.Buddy.Cover.{Additive, covers, IsApart, inside_not_buddy}
use kernal.Buddy.Expand.{NoneInside, expand-measure, expand-IsValid, expand-mem_map}

module _ (P : PageOps) where
  open P use {Page, page_buddy, page_order}

  -- What a caller has after an allocation: the block is aligned, is no longer free, and with the
  -- free blocks that are left makes up the free blocks that there were.
  pub record Taken (z z' : Zone Page) (page order : ℕ) : Type 0 where
    pub valid : IsValid P z'
    pub aligned : Aligned order page
    pub small : page + 2 ^ order ≤ ulong_mod
    pub owned : page_buddy (z'.mem_map page) ≡ false
    pub kept :
        (g : ℕ → ℕ → ℕ) → Additive g → measure g z.free_list ≡ measure g z'.free_list + g order page

  -- The search for an empty answer goes through every list from `order` up.
  abbrev pub NoneFrom : Zone Page → ℕ → ℕ → Type 0
  NoneFrom z order mt = (c : ℕ) → order ≤ c → c < max_order → z.free_list c mt ≡ []

  abbrev pub Answer : Zone Page → ℕ → ℕ → Option ℕ × Zone Page → Type 0
  Answer z order mt (none, z') = (z' ≡ z) × NoneFrom z order mt
  Answer z order mt (some page, z') = Taken z z' page order

  module _ (z : Zone Page) (mt order : ℕ) (v : IsValid P z) (apart : IsApart z)
      (lm : mt < migrate_types) where
    pub take_page-Taken :
        (n page from : ℕ) (rest : List ℕ)
        → order + n < max_order
        → from < migrate_types
        → z.free_list (order + n) from ≡ page ∷ rest
        → Taken z (take_page P page order n from mt z) page order
    unfolding take_page
    take_page-Taken n page from rest lo lf e =
        let listed : 0 < weigh (is page) (z.free_list (order + n) from) =
          rw e (unfold weigh in ground arith) in
        let entry = v.entry page (order + n) from lo lf listed in
        let flag = listed_flag P z page (order + n) from v lo lf listed in
        let z1 = __del_page_from_free_list P page (order + n) from z in
        let v1 = del-IsValid P page (order + n) from v flag entry.order lo in
        let heads : NoneInside P page order n z1 = λ i l.
          ap page_buddy (del-mem_map P z page (order + n) from (page + 2 ^ (order + i)) (above i))
          ∙ inside_not_buddy P z page (order + n) (page + 2 ^ (order + i)) v apart lo flag
              entry.order (above i) (inside i l) in
        let v2 = expand-IsValid P page order n mt z1 lm lo entry.aligned entry.small heads v1 in
        let off =
          ap page_buddy (expand-mem_map P page order n mt z1 page (omega arith))
          ∙ del_flag P page (order + n) from v flag entry.order lo in
        let mark = P.buddy-migratetype ((expand P page order n mt z1).mem_map page) mt ∙ off in
        record {
          valid = IsValid-touch P page _ v2 (mark ∙ sym off) (λ on. cc (sym mark ∙ on));
          aligned = Aligned-mono order (order + n) page (omega arith) entry.aligned;
          small = omega (arith, entry.small, two_pow_mono order (order + n) (omega arith));
          owned = rw (==_refl page) mark;
          kept = λ g a. omega (
            arith,
            measure-del P page (order + n) from v flag entry.order g,
            expand-measure P g page order n mt z1 a lm lo,
          );
        }
      where
        above : (i : ℕ) → page + 2 ^ (order + i) ≢ page
        above i = omega (arith, one-le-pow (order + i) 2 (omega arith))

        inside : (i : ℕ) → i < n → covers (page + 2 ^ (order + i)) (order + n) page ≡ 1
        inside i l =
            let less = two_pow_mono (suc (order + i)) (order + n) (omega arith) in
            let pos = one-le-pow (order + i) 2 (omega arith) in
            ground (arith, two_pow_suc (order + i))

    smallest_loop-Answer :
        (k n : ℕ)
        → k + (order + n) ≡ max_order
        → ((c : ℕ) → order ≤ c → c < order + n → z.free_list c mt ≡ [])
        → Answer z order mt (smallest_loop P k order n mt z)
    unfolding smallest_loop
    smallest_loop-Answer zero n total empty = (refl, λ c a b. empty c a (omega arith))
    smallest_loop-Answer (suc k) n total empty = elim (List-cases (z.free_list (order + n) mt)) [
      | inl e ↦
          rw (e, smallest_loop)
            (smallest_loop-Answer k (n + 1) (omega arith) (λ c a b. elim (dec_lt c (order + n)) [
              | yes l ↦ empty c a l
              | no l ↦ let at : c ≡ order + n = omega arith in rw at e
            ]))
      | inr (page, rest, e) ↦
          rw (e, smallest_loop) (take_page-Taken n page mt rest (omega arith) lm e)
    ]

    -- In a valid zone with no overlapping free blocks, for an order and a migrate type in range:
    -- where __rmqueue_smallest returns a page the zone stays valid, the block is aligned to its
    -- size and lies below the range of an ulong, its first page has lost PageBuddy, and every
    -- weight of blocks that splitting keeps is shared out between the block and the free lists;
    -- where it returns NULL the zone is unchanged and every list of that migrate type from the
    -- order up is empty.
    pub __rmqueue_smallest-Answer :
        order < max_order → Answer z order mt (__rmqueue_smallest P order mt z)
    unfolding __rmqueue_smallest
    __rmqueue_smallest-Answer l =
        smallest_loop-Answer (max_order - order) 0 (omega arith) (λ c a b. absurd (omega arith))
