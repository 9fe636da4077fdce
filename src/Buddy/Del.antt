-- ===== src/Buddy/Del.antt =====
-- kernel/mm/buddy.c: a page in a list of its order is taken off it.
use native.Mathlib.Decide.{ℕ_discrete}
use kernal.Prelude.{
  ℕ, ◌+◌, ◌^◌, ◌<◌, ==_refl, ◌≡◌, ◌≢◌, true, false, arith, ◌==◌, if◌then◌else◌, sym, ap, ◌∙◌, ◌*◌,
}
use kernal.Page.{PageOps}
use kernal.Buddy.{Zone, max_order, migrate_types, __del_page_from_free_list}
use kernal.Buddy.Valid.{IsValid, IsValidBut, IsEntry, IsCounted, IsValidBut-IsValid}
use kernal.Buddy.Bits.{two_pow_mono}
use kernal.Buddy.Measure.{
  weigh, is, measure, entries, entries-list, weigh-remove_le, measure-remove,
}

module _ (P : PageOps) where
  open P use {
    Page, page_buddy, page_order, set_page_private, __set_page_buddy, __clear_page_buddy, buddy-set,
    buddy-clear, buddy-private, order-private,
  }

  pub del-mem_map :
      (z : Zone Page) (q o m p : ℕ)
      → p ≢ q
      → (__del_page_from_free_list P q o m z).mem_map p ≡ z.mem_map p
  unfolding __del_page_from_free_list
  del-mem_map z q o m p ne = ground arith

  del-list :
      (z : Zone Page) (q o m p o' m' : ℕ)
      → 0 < weigh (is p) ((__del_page_from_free_list P q o m z).free_list o' m')
      → 0 < weigh (is p) (z.free_list o' m')
  unfolding __del_page_from_free_list
  del-list z q o m p o' m' c = omega (arith, weigh-remove_le (is p) q (z.free_list o' m'), c)

  module _ (q o m : ℕ) {z : Zone Page} (v : IsValid P z) (flag : page_buddy (z.mem_map q) ≡ true)
      (order : page_order (z.mem_map q) ≡ o) where
    one_entry : entries q z.free_list ≡ 1
    one_entry = v.flags q ∙ ap (λ b. if b then 1 else 0) flag

    -- A weight goes down by that of the page.
    pub measure-del :
        (g : ℕ → ℕ → ℕ)
        → measure g z.free_list ≡ measure g (__del_page_from_free_list P q o m z).free_list + g o q
    unfolding __del_page_from_free_list
    measure-del g =
        let taken =
          measure-remove g q (g o q) z.free_list (omega (arith, one_entry))
            (λ o' m' l k c. ap (λ t. g t q) (sym (v.entry q o' m' l k c).order ∙ order)) in
        let all : entries q z.free_list * g o q ≡ g o q = rw one_entry (omega arith) in
        omega (arith, taken, all)

    del_absent : entries q (__del_page_from_free_list P q o m z).free_list ≡ 0
    del_absent =
        let here : is q q ≡ 1 = ground arith in
        omega (arith, measure-del (λ _. is q), one_entry, here)

    module _ (lo : o < max_order) where
      del-IsCounted : IsCounted P (__del_page_from_free_list P q o m z)
      unfolding __del_page_from_free_list
      del-IsCounted =
          let size = two_pow_mono o 10 (omega arith) in
          record {
            areas = λ o'.
                ground (arith, measure-del (λ k _. if k == o' then 1 else 0), v.counted.areas o');
            pages = ground (arith, measure-del (λ k _. 2 ^ k), v.counted.pages);
          }

      del-flags :
          (p : ℕ)
          → p ≢ q
          → entries p (__del_page_from_free_list P q o m z).free_list
            ≡ (if page_buddy ((__del_page_from_free_list P q o m z).mem_map p) then 1 else 0)
      del-flags p ne =
          let here : is p q ≡ 0 = ground arith in
          rw (del-mem_map z q o m p ne) (omega (arith, measure-del (λ _. is p), v.flags p, here))

      del-IsEntry :
          (p o' m' : ℕ)
          → o' < max_order
          → m' < migrate_types
          → 0 < weigh (is p) ((__del_page_from_free_list P q o m z).free_list o' m')
          → IsEntry P (__del_page_from_free_list P q o m z) p o'
      del-IsEntry p o' m' l k c = elim (ℕ_discrete p q) [
        | yes e ↦ absurd (
            omega (
              arith,
              del_absent,
              entries-list q (__del_page_from_free_list P q o m z).free_list o' m' l k,
              rw e at c,
            ))
        | no ne ↦
            let old = v.entry p o' m' l k (del-list z q o m p o' m' c) in
            record {
              order = ap page_order (del-mem_map z q o m p ne) ∙ old.order;
              aligned = old.aligned;
              small = old.small;
            }
      ]

      -- A page in a list of its order is taken off it.
      pub del-IsValidBut : IsValidBut P q (__del_page_from_free_list P q o m z)
      del-IsValidBut = record {
        absent = del_absent;
        flags = del-flags;
        entry = del-IsEntry;
        counted = del-IsCounted;
      }

      pub del_flag : page_buddy ((__del_page_from_free_list P q o m z).mem_map q) ≡ false
      unfolding __del_page_from_free_list
      del_flag = rw (==_refl q) (buddy-private _ 0 ∙ buddy-clear _)

      pub del-IsValid : IsValid P (__del_page_from_free_list P q o m z)
      del-IsValid = IsValidBut-IsValid P q del-IsValidBut del_flag
