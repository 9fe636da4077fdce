-- ===== src/Buddy/Prep.antt =====
-- kernel/mm/buddy.c: `prep_new_page` touches only pages that are not free.
use Prim.Native.Nat.{bit_and}
use kernal.Prelude.{
  ℕ, zero, suc, ◌+◌, ◌-◌, ◌%◌, ◌^◌, ◌≤◌, ◌<◌, ◌≡◌, refl, ◌∙◌, Bool, true, false, ◌==◌, inl, inr,
  Bool-cases, arith, Option, none, some,
}
use kernal.Page.{PageOps, FrameOps}
use kernal.Buddy.{Zone, max_order, ulong_mod, set_page}
use kernal.Buddy.Valid.{IsValid}
use kernal.Buddy.Touch.{Touched, Touched-none, Touched-trans, set_page-Touched}
use kernal.Buddy.Cover.{covers, covers-Additive, covers-listed, covers_self, IsApart}
use kernal.Buddy.Alloc.{Taken, Answer, NoneFrom, __rmqueue_smallest-Answer}
use kernal.Buddy.Fallback.{migrate_reserve, Found, found, nothing, out_of_range, __rmqueue_fallback}
use kernal.Buddy.Search.{NoOther, FallbackAnswer, __rmqueue_fallback-Answer}
use kernal.Buddy.Request.{
  clear_page_flags, gfp_zero, prep_page, prep_loop, prep_new_page, or_fallback, prepared, rmqueue,
  Memory, uncount, alloc_pages,
}

module _ (P : PageOps) (F : FrameOps P) where
  open P use {Page, page_buddy}

  -- No page of a block that was taken heads a free block.
  inside_off :
      (z z' : Zone Page) (page order x : ℕ)
      → IsApart z
      → Taken P z z' page order
      → page ≤ x
      → x < page + 2 ^ order
      → page_buddy (z'.mem_map x) ≡ false
  inside_off z z' page order x apart t lo hi = elim (Bool-cases (page_buddy (z'.mem_map x))) [
    | inl on ↦
        let inside : covers x order page ≡ 1 = ground arith in
        absurd (
          omega (
            arith,
            apart x,
            t.kept (covers x) (covers-Additive x),
            covers-listed P z' x x t.valid on,
            covers_self x (P.page_order (z'.mem_map x)),
          ))
    | inr off ↦ off
  ]

  prep_page-page_buddy : (gfp : ℕ) (p : Page) → page_buddy (prep_page P F gfp p) ≡ page_buddy p
  unfolding prep_page clear_page_flags
  prep_page-page_buddy gfp p =
      let body = F.set_page_count (clear_page_flags P F p) 1 in
      let start = F.buddy-count (clear_page_flags P F p) 1 ∙ F.buddy-flags p _ in
      F.buddy-waiters _ ∙ P.buddy-private _ 0 ∙ elim (Bool-cases (bit_and gfp gfp_zero == 0)) [
        | inl e ↦ rw e start
        | inr e ↦ rw e (F.buddy-cleared body ∙ start)
      ]

  prep_loop-Touched :
      (k page gfp : ℕ) (z : Zone Page)
      → IsValid P z
      → ((y : ℕ) → page ≤ y → y < page + k → page_buddy (z.mem_map y) ≡ false)
      → Touched P z (prep_loop P F k page gfp z)
  unfolding prep_loop
  prep_loop-Touched zero page gfp z v off = Touched-none P z v
  prep_loop-Touched (suc k) page gfp z v off =
      let p = prep_page P F gfp (z.mem_map page) in
      let here = off page (omega arith) (omega arith) in
      let t = set_page-Touched P z page p v here (prep_page-page_buddy gfp (z.mem_map page)) in
      Touched-trans P z (set_page page p z) _ t (
        prep_loop-Touched k (page + 1) gfp (set_page page p z) t.valid
          (λ y lo hi. t.flag y ∙ off y (omega arith) (omega arith)))

  pub Touched-Taken :
      (z z' z'' : Zone Page) (page order : ℕ)
      → Touched P z' z''
      → Taken P z z' page order
      → Taken P z z'' page order
  Touched-Taken z z' z'' page order p t = record {
    valid = p.valid;
    aligned = t.aligned;
    small = t.small;
    owned = p.flag page ∙ t.owned;
    kept = λ g a. rw p.lists (t.kept g a);
  }

  pub prep_new_page-Taken :
      (z z' : Zone Page) (page order gfp : ℕ)
      → IsApart z
      → Taken P z z' page order
      → Taken P z (prep_new_page P F page order gfp z') page order
  unfolding prep_new_page
  prep_new_page-Taken z z' page order gfp apart t =
      Touched-Taken z z' _ page order
        (prep_loop-Touched (2 ^ order) page gfp z' t.valid
          (λ y lo hi. inside_off z z' page order y apart t lo hi))
        t

  -- How a request ends.
  abbrev pub Request : Zone Page → ℕ → ℕ → Found (Zone Page) → Type 0
  Request z order mt (found page z') = Taken P z z' page order
  Request z order mt nothing = (0 < order) × NoneFrom P z order mt × NoOther z order mt
  Request z order mt out_of_range = (order ≡ 0) × NoneFrom P z order mt × NoOther z order mt

  module _ (zone_end_pfn : Zone Page → ℕ) (z : Zone Page) (mt order gfp : ℕ) (v : IsValid P z)
      (apart : IsApart z) (lm : mt < migrate_reserve) (lo : order < max_order)
      (big : 0 < P.pageblock_order) where
    smallest-Request :
        (r : Option ℕ × Zone Page)
        → Answer P z order mt r
        → Request z order mt (prepared P F order gfp (or_fallback P F zone_end_pfn order mt r))
    smallest-Request (some page, z') t = prep_new_page-Taken z z' page order gfp apart t
    smallest-Request (none, z') (same, empty) = rw same (
        fallback (__rmqueue_fallback P zone_end_pfn order mt z)
          (__rmqueue_fallback-Answer P zone_end_pfn z mt order v apart lm big lo))
      where
        fallback :
            (r : Found (Zone Page))
            → FallbackAnswer P z order mt r
            → Request z order mt (prepared P F order gfp r)
        fallback (found page z'') (t, _) = prep_new_page-Taken z z'' page order gfp apart t
        fallback nothing (l, none_left) = (l, empty, none_left)
        fallback out_of_range (l, none_left) = (l, empty, none_left)

    pub rmqueue-Request : Request z order mt (rmqueue P F zone_end_pfn order gfp mt z)
    unfolding rmqueue
    rmqueue-Request =
        smallest-Request _ (__rmqueue_smallest-Answer P z mt order v apart (omega arith) lo)

  -- How `alloc_pages` ends, with the counter of the file.
  abbrev pub Allocated : Memory Page → ℕ → ℕ → Found (Memory Page) → Type 0
  Allocated m order mt (found page m') =
      Taken P m.zone m'.zone page order
      × (m'.free_pages ≡ (m.free_pages + ulong_mod - 2 ^ order) % ulong_mod)
      × (m'.total_pages ≡ m.total_pages)
  Allocated m order mt nothing = (0 < order) × NoneFrom P m.zone order mt × NoOther m.zone order mt
  Allocated m order mt out_of_range =
      (order ≡ 0) × NoneFrom P m.zone order mt × NoOther m.zone order mt

  Request-Allocated :
      (m : Memory Page) (order mt : ℕ) (r : Found (Zone Page))
      → Request m.zone order mt r
      → Allocated m order mt (uncount P F order m r)
  Request-Allocated m order mt (found page z) t =
      let p = F.set_page_node (F.set_page_zone (z.mem_map page)) in
      let same = F.buddy-node _ ∙ F.buddy-zone (z.mem_map page) in
      (
        Touched-Taken m.zone z _ page order (set_page-Touched P z page p t.valid t.owned same) t,
        refl,
        refl,
      )
  Request-Allocated m order mt nothing r = r
  Request-Allocated m order mt out_of_range r = r

  -- In a valid zone with no overlapping free blocks that the flags choose, with pageblock_order
  -- above 0, an order below MAX_ORDER and one of the types unmovable, movable and reclaimable:
  -- where alloc_pages returns a page, the zone stays valid, the block is aligned, lies below the
  -- range of an ulong and makes up with the free blocks left those that there were, and the
  -- counter free_pages has gone down by its size modulo the range of an ulong. NULL is returned
  -- only for an order above 0, and for order 0 the search reads out of range instead, each where
  -- every list of the type from the order up is empty and every list of the other two types is
  -- empty or its order counts no block.
  pub alloc_pages-Allocated :
      (zone_end_pfn : Zone Page → ℕ) (migratetype : ℕ → ℕ) (has_zone : ℕ → Bool) (m : Memory Page)
      (order gfp : ℕ)
      → IsValid P m.zone
      → IsApart m.zone
      → migratetype gfp < migrate_reserve
      → order < max_order
      → 0 < P.pageblock_order
      → has_zone gfp ≡ true
      → Allocated m order
          (migratetype gfp)
          (alloc_pages P F zone_end_pfn migratetype has_zone gfp order m)
  unfolding alloc_pages
  alloc_pages-Allocated zone_end_pfn migratetype has_zone m order gfp v apart lm lo big has =
      rw has (
        Request-Allocated m order (migratetype gfp) _
          (rmqueue-Request zone_end_pfn m.zone (migratetype gfp) order gfp v apart lm lo big))
