-- ===== src/Buddy/Steal.antt =====
-- kernel/mm/buddy.c: `steal_suitable_fallback` behind `__del_page_from_free_list`.
use kernal.Prelude.{ℕ, ◌+◌, ◌<◌, ◌≡◌, refl, Bool, true, false, ==_refl, lt→ltb}
use kernal.Page.{PageOps}
use kernal.Buddy.{Zone, take_page, __del_page_from_free_list}
use kernal.Buddy.Fallback.{steal_suitable_fallback, take_fallback}

module _ (P : PageOps) (zone_end_pfn : Zone P.Page → ℕ) where
  open P use {Page, page_order, pageblock_order}

  -- `page_order` reads the private value, which has just become 0.
  del_order :
      (page order mt : ℕ) (z : Zone Page)
      → page_order ((__del_page_from_free_list P page order mt z).mem_map page) ≡ 0
  unfolding __del_page_from_free_list
  del_order page order mt z = rw (==_refl page) (P.order-private _ 0)

  steal_after_del :
      (page order mt start : ℕ) (z : Zone Page)
      → 0 < pageblock_order
      → steal_suitable_fallback P zone_end_pfn page start
          (__del_page_from_free_list P page order mt z)
        ≡ __del_page_from_free_list P page order mt z
  unfolding steal_suitable_fallback
  steal_after_del page order mt start z big =
      rw (del_order page order mt z, lt→ltb 0 pageblock_order big)

  -- Where pageblock_order is above 0, __rmqueue_fallback does to the block that it takes what
  -- __rmqueue_smallest does, whether it can steal or not: steal_suitable_fallback reads an order
  -- that has just been cleared, and moves no page.
  pub take_fallback-take_page :
      (page order n fallback_mt : ℕ) (can_steal : Bool) (start : ℕ) (z : Zone Page)
      → 0 < pageblock_order
      → take_fallback P zone_end_pfn page order n fallback_mt can_steal start z
        ≡ take_page P page order n fallback_mt start z
  unfolding take_fallback take_page
  take_fallback-take_page page order n fallback_mt true start z big =
      rw (steal_after_del page (order + n) fallback_mt start z big)
  take_fallback-take_page page order n fallback_mt false start z big = refl
