-- ===== src/Buddy/Release.antt =====
-- kernel/mm/buddy.c: from `__free_pages` to the free lists of a zone or of a CPU.
use Prim.Native.Nat.{bit_and}
use kernal.Prelude.{
  ℕ, zero, suc, ◌+◌, ◌-◌, ◌^◌, Bool, true, false, not, ◌||◌, Option, none, some, [], ◌∷◌, ◌++◌,
  ◌==◌, ltb, if◌then◌else◌,
}
use kernal.Prelude.Int.{pos, ◌+ℤ◌, ◌-ℤ◌, ltb_ℤ}
use kernal.Page.{PageOps, FrameOps}
use kernal.Buddy.{Zone, ulong_mod, write, set_page, __free_one_page}
use kernal.Buddy.Request.{PerCpuPages, Memory}

abbrev pub migrate_pcptypes : ℕ
migrate_pcptypes = 3

module _ (P : PageOps) (F : FrameOps P) where
  open P use {Page, get_freepage_migratetype}
  open F use {
    flags, set_flags, page_anon, clear_mapping, has_mapping, page_mapcount, page_ref_count,
    put_page, page_cpupid_reset_last, page_flags_check_at_free, page_flags_check_at_prep,
  }

  -- The tests of `free_page_check`, any of which gives a `bad_reason`.
  abbrev pub bad_page : Page → Bool
  bad_page p =
      not (page_mapcount p == 0)
      || (has_mapping p
          || (not (page_ref_count p == 0) || not (bit_and (flags p) page_flags_check_at_free == 0)))

  abbrev pub clear_check : Page → Page
  clear_check p = set_flags p (bit_and (flags p) (ulong_mod - 1 - page_flags_check_at_prep))

  unfoldable pub free_page_check : Page → Page × ℕ
  free_page_check p =
      if bad_page p
      then (p, 1)
      else let q = page_cpupid_reset_last p in
        (if bit_and (flags q) page_flags_check_at_prep == 0 then q else clear_check q, 0)

  abbrev pub without_mapping : Page → Page
  without_mapping p = if page_anon p then clear_mapping p else p

  -- The rounds of which `k` are left, and `bad`.
  unfoldable pub check_loop : ℕ → ℕ → ℕ → Zone Page → ℕ × Zone Page
  unfolding free_page_check
  check_loop zero page bad z = (bad, z)
  check_loop (suc k) page bad z =
      let r = free_page_check (without_mapping (z.mem_map page)) in
      check_loop k (page + 1) (bad + r.1) (set_page page r.0 z)

  abbrev pub checked : ℕ → ℕ × Zone Page → Bool × Zone Page
  checked page (zero, z) =
      (true, set_page page (clear_check (page_cpupid_reset_last (z.mem_map page))) z)
  checked page (suc bad, z) = (false, z)

  unfoldable pub free_page_prepare : ℕ → ℕ → Zone Page → Bool × Zone Page
  unfolding check_loop
  free_page_prepare page order z = checked page (check_loop (2 ^ order) page 0 z)

  abbrev pub free_prepared : ℕ → ℕ → Bool × Zone Page → Option (Zone Page)
  free_prepared page order (false, z) = some z
  free_prepared page order (true, z) =
      __free_one_page P page page order (get_freepage_migratetype (z.mem_map page)) z

  -- The first page of a block has its own frame number. `none` is a read of a page past them all.
  unfoldable pub __free_pages_ok : ℕ → ℕ → Zone Page → Option (Zone Page)
  unfolding free_page_prepare
  __free_pages_ok page order z = free_prepared page order (free_page_prepare page order z)

  -- `free_pcppages_bulk` is not in the sources.
  module _ (free_pcppages_bulk : ℕ → Zone Page × PerCpuPages → Zone Page × PerCpuPages) where
    abbrev pub pcp_add : ℕ → ℕ → Bool → PerCpuPages → PerCpuPages
    pcp_add page migratetype cold pcp = record pcp {
      count = pcp.count +ℤ pos 1;
      lists =
          write pcp.lists migratetype
            (if cold then pcp.lists migratetype ++ page ∷ [] else page ∷ pcp.lists migratetype);
    }

    abbrev pub pcp_drain : Memory Page → Memory Page
    pcp_drain m =
        let r = free_pcppages_bulk m.pcp.batch (m.zone, m.pcp) in
        if ltb_ℤ m.pcp.count m.pcp.high
        then m
        else record m { zone = r.0; pcp = record r.1 { count = r.1.count -ℤ pos m.pcp.batch } }

    -- `none` is a write outside `pcp->lists`.
    abbrev pub keep_page : ℕ → Bool → Memory Page → Bool × Zone Page → Option (Memory Page)
    keep_page page cold m (false, z) = some (record m { zone = z })
    keep_page page cold m (true, z) =
        let mt = get_freepage_migratetype (z.mem_map page) in
        if ltb mt migrate_pcptypes
        then some (pcp_drain (record m { zone = z; pcp = pcp_add page mt cold m.pcp }))
        else none

    unfoldable pub free_hot_cold_page : ℕ → Bool → Memory Page → Option (Memory Page)
    unfolding free_page_prepare
    free_hot_cold_page page cold m = keep_page page cold m (free_page_prepare page 0 m.zone)

    abbrev pub put_back : Memory Page → Option (Zone Page) → Option (Memory Page)
    put_back m none = none
    put_back m (some z) = some (record m { zone = z })

    -- `put_page_testzero`
    unfoldable pub __free_pages : ℕ → ℕ → Memory Page → Option (Memory Page)
    unfolding free_hot_cold_page __free_pages_ok
    __free_pages page order m =
        let put = set_page page (put_page (m.zone.mem_map page)) m.zone in
        if not (page_ref_count (put.mem_map page) == 0)
        then some (record m { zone = put })
        else if order == 0
        then free_hot_cold_page page false (record m { zone = put })
        else put_back m (__free_pages_ok page order put)

    -- `virt_to_page` is not in the sources.
    unfoldable pub free_pages : (ℕ → ℕ) → ℕ → ℕ → Memory Page → Option (Memory Page)
    unfolding __free_pages
    free_pages virt_to_page addr order m =
        if addr == 0 then some m else __free_pages (virt_to_page addr) order m
