-- ===== src/Buddy/Fallback.antt =====
-- kernel/mm/buddy.c: `__rmqueue_fallback`, which takes a block of another migrate type where the
-- wanted one has none.
use kernal.Prelude.{
  ℕ, zero, suc, ◌+◌, ◌-◌, ◌*◌, ◌/◌, ◌^◌, Bool, true, false, not, ◌||◌, List, [], ◌∷◌, ◌==◌, ltb,
  leb, if◌then◌else◌,
}
use kernal.Page.{PageOps}
use kernal.Buddy.{
  Zone, max_order, migrate_types, set_page, __del_page_from_free_list, __add_page_to_free_list,
  expand,
}

abbrev pub migrate_unmovable : ℕ
migrate_unmovable = 0

abbrev pub migrate_movable : ℕ
migrate_movable = 1

abbrev pub migrate_reclaimable : ℕ
migrate_reclaimable = 2

abbrev pub migrate_reserve : ℕ
migrate_reserve = 3

-- A row of four; an entry that is not given is 0.
abbrev pub fallbacks : ℕ → List ℕ
fallbacks migratetype =
    if migratetype == migrate_unmovable
    then migrate_reclaimable ∷ migrate_movable ∷ migrate_types ∷ 0 ∷ []
    else if migratetype == migrate_reclaimable
    then migrate_unmovable ∷ migrate_movable ∷ migrate_types ∷ 0 ∷ []
    else if migratetype == migrate_movable
    then migrate_reclaimable ∷ migrate_unmovable ∷ migrate_types ∷ 0 ∷ []
    else if migratetype == migrate_reserve
    then migrate_reserve ∷ 0 ∷ 0 ∷ 0 ∷ []
    else migrate_types ∷ 0 ∷ 0 ∷ 0 ∷ []

-- What `find_suitable_fallback` answers: a type and `can_steal`, -1, or a read behind the row.
pub data Suitable : Type 0 where
  suitable : ℕ → Bool → Suitable
  unsuitable : Suitable
  off_row : Suitable

-- What a search ends with: a page, NULL, or a read outside an array.
pub data Found (S : Type 0) : Type 0 where
  found : ℕ → S → Found S
  nothing : Found S
  out_of_range : Found S

module _ (P : PageOps) (zone_end_pfn : Zone P.Page → ℕ) where
  open P use {
    Page, page_buddy, page_order, get_freepage_migratetype, set_freepage_migratetype,
    pfn_valid_within, pageblock_order,
  }

  unfoldable pub can_steal_fallback : ℕ → ℕ → Bool
  can_steal_fallback order start_mt =
      if leb pageblock_order order
      then true
      else if start_mt == migrate_movable
      then true
      else false

  -- The rounds of `for (i = 0;; i++)` over what is left of the row.
  unfoldable pub suitable_loop : List ℕ → ℕ → ℕ → Bool → Bool → Zone Page → Suitable
  unfolding can_steal_fallback
  suitable_loop [] order migratetype only_stealable can_steal z = off_row
  suitable_loop (mt ∷ row) order migratetype only_stealable can_steal z =
      let can = can_steal || can_steal_fallback order migratetype in
      let next = suitable_loop row order migratetype only_stealable can_steal z in
      let next_can = suitable_loop row order migratetype only_stealable can z in
      if mt == migrate_types then unsuitable else elim (z.free_list order mt) [
        | [] ↦ next
        | _ ∷ _ ↦
            if not only_stealable
            then suitable mt can
            else if can
            then suitable mt can
            else next_can
      ]

  unfoldable pub find_suitable_fallback : ℕ → ℕ → Bool → Zone Page → Suitable
  unfolding suitable_loop
  find_suitable_fallback order migratetype only_stealable z =
      if z.nr_free order == 0
      then unsuitable
      else suitable_loop (fallbacks migratetype) order migratetype only_stealable false z

  -- The rounds of the loop up to `end_page`, of which each goes on by a page or more; the zone, and
  -- `pages_moved`.
  unfoldable pub move_loop : ℕ → ℕ → ℕ → ℕ → ℕ → Zone Page → ℕ × Zone Page
  move_loop zero page end_page migratetype moved z = (moved, z)
  move_loop (suc k) page end_page migratetype moved z =
      let order = page_order (z.mem_map page) in
      let skip = move_loop k (page + 1) end_page migratetype moved z in
      let move = move_loop k (page + 2 ^ order) end_page migratetype (moved + 2 ^ order) (
        __add_page_to_free_list P page order migratetype
          (__del_page_from_free_list P page order (get_freepage_migratetype (z.mem_map page)) z)) in
      if ltb end_page page
      then (moved, z)
      else if not (pfn_valid_within page)
      then skip
      else if not (page_buddy (z.mem_map page))
      then skip
      else move

  unfoldable pub move_freepages : ℕ → ℕ → ℕ → Zone Page → ℕ × Zone Page
  unfolding move_loop
  move_freepages start_page end_page migratetype z =
      move_loop (end_page + 1 - start_page) start_page end_page migratetype 0 z

  -- `& ~(pageblock_nr_pages - 1)` rounds down to a multiple of the power of two.
  unfoldable pub move_freepages_block : ℕ → ℕ → Zone Page → ℕ × Zone Page
  unfolding move_freepages
  move_freepages_block page migratetype z =
      let start_pfn = page / 2 ^ pageblock_order * 2 ^ pageblock_order in
      let end_pfn = start_pfn + 2 ^ pageblock_order - 1 in
      let start_page = if ltb start_pfn z.zone_start_pfn then z.zone_start_pfn else start_pfn in
      if leb (zone_end_pfn z) end_pfn
      then (0, z)
      else move_freepages start_page end_pfn migratetype z

  -- `set_pageblock_migratetype` does nothing.
  unfoldable pub steal_suitable_fallback : ℕ → ℕ → Zone Page → Zone Page
  unfolding move_freepages_block
  steal_suitable_fallback page start_type z =
      if ltb (page_order (z.mem_map page)) pageblock_order
      then z
      else (move_freepages_block page start_type z).1

  -- What becomes of the page `page` of the list of order `order + n` and type `fallback_mt`.
  unfoldable pub take_fallback : ℕ → ℕ → ℕ → ℕ → Bool → ℕ → Zone Page → Zone Page
  unfolding steal_suitable_fallback
  take_fallback page order n fallback_mt can_steal start_migratetype z =
      let z1 = __del_page_from_free_list P page (order + n) fallback_mt z in
      let z2 = if can_steal then steal_suitable_fallback page start_migratetype z1 else z1 in
      let z3 = expand P page order n start_migratetype z2 in
      set_page page (set_freepage_migratetype (z3.mem_map page) start_migratetype) z3

  abbrev pub first_fallback : ℕ → ℕ → ℕ → ℕ → Bool → Zone Page → List ℕ → Found (Zone Page)
  first_fallback order n start_migratetype fallback_mt can_steal z [] = out_of_range
  first_fallback order n start_migratetype fallback_mt can_steal z (page ∷ _) =
      found page (take_fallback page order n fallback_mt can_steal start_migratetype z)

  -- The rounds of the loop over `current_order = order + n`, downwards. Below 0 the unsigned
  -- `current_order` wraps, the loop goes on, and reads `free_area` out of range.
  unfoldable pub fallback_loop : ℕ → ℕ → ℕ → Zone Page → Found (Zone Page)
  unfolding find_suitable_fallback
  fallback_loop zero order start_migratetype z = if order == 0 then out_of_range else nothing
  fallback_loop (suc n) order start_migratetype z =
      let rest = fallback_loop n order start_migratetype z in
      elim (find_suitable_fallback (order + n) start_migratetype false z) [
        | unsuitable ↦ rest
        | off_row ↦ out_of_range
        | suitable fallback_mt can_steal ↦
            first_fallback order n start_migratetype fallback_mt can_steal z
              (z.free_list (order + n) fallback_mt)
      ]

  unfoldable pub __rmqueue_fallback : ℕ → ℕ → Zone Page → Found (Zone Page)
  unfolding fallback_loop
  __rmqueue_fallback order start_migratetype z =
      fallback_loop (max_order - order) order start_migratetype z
