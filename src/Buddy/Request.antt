-- ===== src/Buddy/Request.antt =====
-- kernel/mm/buddy.c: from `alloc_pages` to the searches of a zone, and what is done to the pages of
-- a block that was found.
use Prim.Native.Nat.{bit_and}
use kernal.Prelude.{
  ℕ, zero, suc, ◌+◌, ◌-◌, ◌%◌, ◌^◌, Bool, Option, none, some, List, ◌==◌, if◌then◌else◌,
}
use kernal.Prelude.Int.{ℤ}
use kernal.Page.{PageOps, FrameOps}
use kernal.Buddy.{Zone, ulong_mod, set_page, __rmqueue_smallest}
use kernal.Buddy.Fallback.{Found, found, nothing, out_of_range, __rmqueue_fallback}

abbrev pub gfp_zero : ℕ
gfp_zero = 0x8000

-- PG_locked, PG_error, PG_referenced, PG_dirty, PG_active, PG_reserved, PG_private, PG_writeback.
abbrev pub cleared_flags : ℕ
cleared_flags = 2 ^ 0 + 2 ^ 1 + 2 ^ 2 + 2 ^ 4 + 2 ^ 6 + 2 ^ 10 + 2 ^ 11 + 2 ^ 13

-- The pages that a CPU keeps, by type; the model has one CPU, as `smp_processor_id` answers 0.
pub record PerCpuPages : Type 0 where
  pub count : ℤ
  pub high : ℤ
  pub batch : ℕ
  pub lists : ℕ → List ℕ

-- The zone that requests go to, and the two counters of the file; `total_pages` is never written.
pub record Memory (A : Type 0) : Type 0 where
  pub zone : Zone A
  pub total_pages : ℕ
  pub free_pages : ℕ
  pub pcp : PerCpuPages

module _ (P : PageOps) (F : FrameOps P) where
  open P use {Page, set_page_private}
  open F use {
    flags, set_flags, set_page_count, clear_page, init_page_waiters, set_page_zone, set_page_node,
  }

  unfoldable pub clear_page_flags : Page → Page
  clear_page_flags p = set_flags p (bit_and (flags p) (ulong_mod - 1 - cleared_flags))

  -- One round of the loop of `prep_new_page`.
  unfoldable pub prep_page : ℕ → Page → Page
  unfolding clear_page_flags
  prep_page gfp_flags p =
      let counted = set_page_count (clear_page_flags p) 1 in
      let zeroed = if bit_and gfp_flags gfp_zero == 0 then counted else clear_page counted in
      init_page_waiters (set_page_private zeroed 0)

  -- The rounds of which `k` are left.
  unfoldable pub prep_loop : ℕ → ℕ → ℕ → Zone Page → Zone Page
  unfolding prep_page
  prep_loop zero page gfp_flags z = z
  prep_loop (suc k) page gfp_flags z =
      prep_loop k (page + 1) gfp_flags (set_page page (prep_page gfp_flags (z.mem_map page)) z)

  unfoldable pub prep_new_page : ℕ → ℕ → ℕ → Zone Page → Zone Page
  unfolding prep_loop
  prep_new_page page order gfp_flags z = prep_loop (2 ^ order) page gfp_flags z

  abbrev pub prepared : ℕ → ℕ → Found (Zone Page) → Found (Zone Page)
  prepared order gfp_flags (found page z) = found page (prep_new_page page order gfp_flags z)
  prepared order gfp_flags nothing = nothing
  prepared order gfp_flags out_of_range = out_of_range

  abbrev pub uncount : ℕ → Memory Page → Found (Zone Page) → Found (Memory Page)
  uncount order m (found page z) = found page (record m {
    zone = set_page page (set_page_node (set_page_zone (z.mem_map page))) z;
    free_pages = (m.free_pages + ulong_mod - 2 ^ order) % ulong_mod;
  })
  uncount order m nothing = nothing
  uncount order m out_of_range = out_of_range

  module _ (zone_end_pfn : Zone Page → ℕ) where
    abbrev pub or_fallback : ℕ → ℕ → Option ℕ × Zone Page → Found (Zone Page)
    or_fallback order migratetype (some page, z) = found page z
    or_fallback order migratetype (none, z) = __rmqueue_fallback P zone_end_pfn order migratetype z

    unfoldable pub rmqueue : ℕ → ℕ → ℕ → Zone Page → Found (Zone Page)
    unfolding prep_new_page
    rmqueue order gfp_flags migratetype z =
        prepared order gfp_flags
          (or_fallback order migratetype (__rmqueue_smallest P order migratetype z))

    -- `migratetype` is what `allocflags_to_migratetype` makes of the flags, and `has_zone` whether
    -- `first_zones_zonelist` finds the zone.
    unfoldable pub alloc_pages : (ℕ → ℕ) → (ℕ → Bool) → ℕ → ℕ → Memory Page → Found (Memory Page)
    unfolding rmqueue
    alloc_pages migratetype has_zone gfp_mask order m =
        if has_zone gfp_mask
        then uncount order m (rmqueue order gfp_mask (migratetype gfp_mask) m.zone)
        else nothing
