-- ===== src/Buddy.antt =====
-- kernel/mm/buddy.c: the free lists of a zone, and the two sides of the buddy allocator.
pub mod Bits
pub mod Sum
pub mod Measure
pub mod Valid
pub mod Del
pub mod Add
pub mod Cover
pub mod Expand
pub mod Alloc
pub mod Free
pub mod Merge
pub mod Round
pub mod Fallback
pub mod Steal
pub mod Search
pub mod Request
pub mod Touch
pub mod Prep
pub mod Release
pub mod Checked
pub mod Order
pub mod Entry
pub mod Init
pub mod Ready
mod Samples
mod Tests
mod RequestTests
mod EntryTests
use Prim.Native.Nat.{bit_xor, bit_and}
use kernal.Prelude.{
  ℕ, zero, suc, ◌+◌, ◌-◌, ◌*◌, ◌%◌, ◌^◌, Bool, true, false, not, ◌&&◌, ◌||◌, Option, none, some,
  List, [], ◌∷◌, ◌==◌, ltb, leb, if◌then◌else◌,
}
use kernal.Page.{PageOps}

abbrev pub max_order : ℕ
max_order = 11

abbrev pub migrate_types : ℕ
migrate_types = 6

-- `ulong` is `unsigned` in kernel/include/types.h, of 32 bits.
abbrev pub ulong_mod : ℕ
ulong_mod = 2 ^ 32

-- What `struct zone` holds for the allocator, with the page of every page frame number. A list is
-- the sequence of the frame numbers of its pages.
pub record Zone (A : Type 0) : Type 0 where
  pub free_list : ℕ → ℕ → List ℕ
  pub nr_free : ℕ → ℕ
  pub free_pages : ℕ
  pub zone_start_pfn : ℕ
  pub spanned_pages : ℕ
  pub mem_map : ℕ → A

-- `list_del` of a page's node takes it out of the list that holds it.
unfoldable pub remove : ℕ → List ℕ → List ℕ
remove q [] = []
remove q (x ∷ xs) = if x == q then xs else x ∷ remove q xs

abbrev pub write {ℓ} : {B : Type ℓ} → (ℕ → B) → ℕ → B → ℕ → B
write f i v j = if j == i then v else f j

module _ {A : Type 0} where
  abbrev pub set_page : ℕ → A → Zone A → Zone A
  set_page pfn p z = record z { mem_map = write z.mem_map pfn p }

abbrev pub push : ℕ → ℕ → ℕ → (ℕ → ℕ → List ℕ) → ℕ → ℕ → List ℕ
push order mt pfn lists o m = if (o == order) && (m == mt) then pfn ∷ lists o m else lists o m

-- page_pfn ^ (1 << order)
pub __find_buddy_pfn : ℕ → ℕ → ℕ
__find_buddy_pfn page_pfn order = bit_xor page_pfn (2 ^ order)

-- page + (to - from): the difference is a `ulong`, and is added to a pointer of 64 bits.
pub page_offset : ℕ → ℕ → ℕ → ℕ
page_offset page to from = page + (to + ulong_mod - from) % ulong_mod

module _ (P : PageOps) where
  open P use {
    Page, page_buddy, __set_page_buddy, __clear_page_buddy, page_order, set_page_private,
    set_page_order, page_zone_id, set_freepage_migratetype, __set_page_guard,
    debug_guardpage_minorder,
  }

  pub page_is_buddy : Page → Page → ℕ → Bool
  page_is_buddy page buddy order =
      if not (page_buddy buddy)
      then false
      else if not (page_order buddy == order)
      then false
      else if not (page_zone_id page == page_zone_id buddy)
      then false
      else true

  pub __del_page_from_free_list : ℕ → ℕ → ℕ → Zone Page → Zone Page
  __del_page_from_free_list page order migratetype z = record z {
    mem_map = write z.mem_map page (set_page_private (__clear_page_buddy (z.mem_map page)) 0);
    free_list = λ o m. remove page (z.free_list o m);
    nr_free = write z.nr_free order ((z.nr_free order + ulong_mod - 1) % ulong_mod);
    free_pages = (z.free_pages + ulong_mod - 2 ^ order) % ulong_mod;
  }

  pub __add_page_to_free_list : ℕ → ℕ → ℕ → Zone Page → Zone Page
  __add_page_to_free_list page order migratetype z = record z {
    free_list = push order migratetype page z.free_list;
    mem_map = write z.mem_map page (set_page_private (__set_page_buddy (z.mem_map page)) order);
    nr_free = write z.nr_free order ((z.nr_free order + 1) % ulong_mod);
    free_pages = (z.free_pages + 2 ^ order) % ulong_mod;
  }

  pub set_page_guard : ℕ → ℕ → Zone Page → Zone Page
  set_page_guard page order z =
      if leb debug_guardpage_minorder order
      then set_page page (set_page_private (__set_page_guard (z.mem_map page)) order) z
      else z

  -- The rounds of `while (high > low)`, of which `n` are left, so that `high` is `low + n`.
  pub expand : ℕ → ℕ → ℕ → ℕ → Zone Page → Zone Page
  expand page low zero migratetype z = z
  expand page low (suc n) migratetype z = expand page low n migratetype (
      set_page_guard (page + 2 ^ (low + n)) (low + n)
        (__add_page_to_free_list (page + 2 ^ (low + n)) (low + n) migratetype z))

  -- The common end of both searches: the page leaves its list, and what is too much goes back.
  pub take_page : ℕ → ℕ → ℕ → ℕ → ℕ → Zone Page → Zone Page
  take_page page order n from_mt migratetype z =
      let z1 = __del_page_from_free_list page (order + n) from_mt z in
      let z2 = expand page order n migratetype z1 in
      set_page page (set_freepage_migratetype (z2.mem_map page) migratetype) z2

  -- The rounds of the loop over `current_order = order + n`, of which `k` are left.
  pub smallest_loop : ℕ → ℕ → ℕ → ℕ → Zone Page → Option ℕ × Zone Page
  unfolding take_page
  smallest_loop zero order n migratetype z = (none, z)
  smallest_loop (suc k) order n migratetype z =
      let rest = smallest_loop k order (n + 1) migratetype z in
      elim (z.free_list (order + n) migratetype) [
        | [] ↦ rest
        | page ∷ _ ↦ (some page, take_page page order n migratetype migratetype z)
      ]

  pub __rmqueue_smallest : ℕ → ℕ → Zone Page → Option ℕ × Zone Page
  __rmqueue_smallest order migratetype z = smallest_loop (max_order - order) order 0 migratetype z

  -- The rounds of `while (order < MAX_ORDER - 1)`, of which `k` are left; `page` and `pfn` are the
  -- two variables of the source. There is a page for every number of an `ulong`; `none` is a read of
  -- a page past them.
  pub free_loop : ℕ → ℕ → ℕ → ℕ → ℕ → Zone Page → Option (Zone Page)
  free_loop zero page pfn order migratetype z = some (
      __add_page_to_free_list page order migratetype
        (set_page page (set_page_order (z.mem_map page) order) z))
  free_loop (suc k) page pfn order migratetype z =
      let buddy_pfn = __find_buddy_pfn pfn order in
      let buddy = page_offset page buddy_pfn pfn in
      let combined_pfn = bit_and buddy_pfn pfn in
      let merged =
        free_loop k (page_offset page combined_pfn pfn) combined_pfn (order + 1) migratetype (
          __del_page_from_free_list buddy order (P.get_freepage_migratetype (z.mem_map buddy)) z) in
      let done_merging =
        __add_page_to_free_list page order migratetype
          (set_page page (set_page_order (z.mem_map page) order) z) in
      if leb ulong_mod buddy
      then none
      else if not (page_is_buddy (z.mem_map page) (z.mem_map buddy) order)
      then some done_merging
      else merged

  pub __free_one_page : ℕ → ℕ → ℕ → ℕ → Zone Page → Option (Zone Page)
  __free_one_page page pfn order migratetype z =
      free_loop (max_order - 1 - order) page pfn order migratetype z
