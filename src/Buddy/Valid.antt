-- ===== src/Buddy/Valid.antt =====
-- kernel/mm/buddy.c: what ties the free lists of a zone, its counters and the flags of its pages, and
-- that a page can be put on a list and taken off it.
use native.Mathlib.Decide.{ℕ_discrete}
use kernal.Prelude.{
  ◌+◌, ◌≤◌, Bool-cases, inl, inr, ap, ◌∙◌, true, arith, ℕ, ◌%◌, ◌^◌, ◌<◌, ◌≡◌, ◌≢◌, false, ◌==◌,
  if◌then◌else◌,
}
use kernal.Page.{PageOps}
use kernal.Buddy.{Zone, max_order, migrate_types, ulong_mod}
use kernal.Buddy.Bits.{Aligned}
use native.Mathlib.Nat.{one-le-pow}
use kernal.Buddy.Measure.{entries-pos, entries-list, weigh, is, measure, entries}

module _ (P : PageOps) where
  open P use {
    Page, page_buddy, page_order, set_page_private, __set_page_buddy, __clear_page_buddy, buddy-set,
    buddy-clear, buddy-private, order-private,
  }

  -- An entry of a list of order `o`.
  pub record IsEntry (z : Zone Page) (q o : ℕ) : Type 0 where
    pub order : page_order (z.mem_map q) ≡ o
    pub aligned : Aligned o q
    pub small : q + 2 ^ o ≤ ulong_mod

  -- `nr_free` and `free_pages` count the blocks and the pages of the lists, as an `ulong` can.
  pub record IsCounted (z : Zone Page) : Type 0 where
    pub areas :
        (o : ℕ) → z.nr_free o ≡ measure (λ o' _. if o' == o then 1 else 0) z.free_list % ulong_mod
    pub pages : z.free_pages ≡ measure (λ o _. 2 ^ o) z.free_list % ulong_mod

  -- A page has the flag `PageBuddy` exactly when it is in one list, once.
  pub record IsValid (z : Zone Page) : Type 0 where
    pub flags : (q : ℕ) → entries q z.free_list ≡ (if page_buddy (z.mem_map q) then 1 else 0)
    pub entry :
        (q o m : ℕ)
        → o < max_order
        → m < migrate_types
        → 0 < weigh (is q) (z.free_list o m)
        → IsEntry z q o
    pub counted : IsCounted z

  -- The same, with no word about the page `q` but that it is in no list.
  pub record IsValidBut (q : ℕ) (z : Zone Page) : Type 0 where
    pub absent : entries q z.free_list ≡ 0
    pub flags :
        (p : ℕ) → p ≢ q → entries p z.free_list ≡ (if page_buddy (z.mem_map p) then 1 else 0)
    pub entry :
        (p o m : ℕ)
        → o < max_order
        → m < migrate_types
        → 0 < weigh (is p) (z.free_list o m)
        → IsEntry z p o
    pub counted : IsCounted z

  pub IsValidBut-IsValid :
      (q : ℕ) {z : Zone Page} → IsValidBut q z → page_buddy (z.mem_map q) ≡ false → IsValid z
  IsValidBut-IsValid q v flag = record {
    flags = λ p. elim (ℕ_discrete p q) [ yes e ↦ rw (e, flag) v.absent | no ne ↦ v.flags p ne ];
    entry = v.entry;
    counted = v.counted;
  }

  -- A page in a list has the flag.
  pub listed_flag :
      (z : Zone Page) (q o m : ℕ)
      → IsValid z
      → o < max_order
      → m < migrate_types
      → 0 < weigh (is q) (z.free_list o m)
      → page_buddy (z.mem_map q) ≡ true
  listed_flag z q o m v l k c = elim (Bool-cases (page_buddy (z.mem_map q))) [
    | inl e ↦ e
    | inr e ↦
        let none_left = v.flags q ∙ ap (λ b. if b then 1 else 0) e in
        absurd (omega (arith, none_left, entries-list q z.free_list o m l k))
  ]

  -- A page with the flag is a frame number of an `ulong`, and its order is one of the zone's.
  pub flagged_small :
      (z : Zone Page) (q : ℕ)
      → IsValid z
      → page_buddy (z.mem_map q) ≡ true
      → (q < ulong_mod)
        × (page_order (z.mem_map q) < max_order)
        × (q + 2 ^ page_order (z.mem_map q) ≤ ulong_mod)
  flagged_small z q v flag =
      let once = v.flags q ∙ ap (λ b. if b then 1 else 0) flag in
      let (o, m, lo, lm, c) = entries-pos q z.free_list (omega (arith, once)) in
      let e = v.entry q o m lo lm c in
      (omega (arith, e.small, one-le-pow o 2 (omega arith)), rw e.order lo, rw e.order e.small)
