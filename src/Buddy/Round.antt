-- ===== src/Buddy/Round.antt =====
-- kernel/mm/buddy.c: what allocating and freeing do to the set of free frames and to `free_pages`.
use kernal.Prelude.{ℕ, ◌+◌, ◌-◌, ◌%◌, ◌^◌, ◌<◌, ◌≡◌, some, ap, ◌∙◌, sym, subst, arith}
use kernal.Page.{PageOps}
use kernal.Buddy.{Zone, max_order, migrate_types, ulong_mod, __rmqueue_smallest, __free_one_page}
use kernal.Buddy.Bits.{two_pow_mono}
use kernal.Buddy.Measure.{measure}
use kernal.Buddy.Valid.{IsValid}
use kernal.Buddy.Cover.{covers, covers-Additive, size-Additive, IsApart}
use kernal.Buddy.Alloc.{Answer, Taken, __rmqueue_smallest-Answer}
use kernal.Buddy.Free.{IsOut, Freed}
use kernal.Buddy.Merge.{Ends, Ends-map, __free_one_page-Ends}

module _ (P : PageOps) where
  open P use {Page, page_buddy}

  -- The zone is as it was, with the block free.
  abbrev pub Covered : Zone Page → ℕ → ℕ → Zone Page → Type 0
  Covered z page order z' =
      ((p : ℕ)
        → measure (covers p) z'.free_list ≡ measure (covers p) z.free_list + covers p order page)
      × (z'.free_pages ≡ (z.free_pages + 2 ^ order) % ulong_mod)

  -- In a valid zone, for an aligned block whose first page is in no free list and that lies below
  -- the range of an ulong, with its order and migrate type in range: __free_one_page merges the
  -- block with the buddies above it, from its order up to the first order `o` where the bit of `o`
  -- in the page frame number is set, or the block above is no buddy, or `o` is MAX_ORDER - 1.
  -- Where `o` is below MAX_ORDER - 1 and the bit is set, so that the buddy lies below, it reads a
  -- page past the range of an ulong. Otherwise it returns, every frame is covered as before and by
  -- the freed block, and free_pages has grown by the size of the block, modulo the range of an
  -- ulong.
  pub __free_one_page-covers :
      (mt : ℕ) (z : Zone Page) (page order : ℕ)
      → mt < migrate_types
      → order < max_order
      → IsValid P z
      → IsOut P z page order
      → Ends P (Covered z page order) z page order (__free_one_page P page page order mt z)
  __free_one_page-covers mt z page order lm lo v o =
      Ends-map P (λ z'. Freed P z z' page order) (Covered z page order) z page order _
        (λ z' f. (
          (λ p. f.kept (covers p) (covers-Additive p)),
          omega
              (arith, f.kept (λ o _. 2 ^ o) size-Additive, f.valid.counted.pages, v.counted.pages),
        ))
        (__free_one_page-Ends P mt lm z page order lo v o)

  -- The zone is valid, and what is free in it is what is free in `z`.
  abbrev pub Restored : Zone Page → Zone Page → Type 0
  Restored z z' =
      IsValid P z'
      × ((p : ℕ) → measure (covers p) z'.free_list ≡ measure (covers p) z.free_list)
      × (z'.free_pages ≡ z.free_pages)

  module _ (z : Zone Page) (mt order : ℕ) (v : IsValid P z) (apart : IsApart z)
      (lm : mt < migrate_types) (lo : order < max_order) {page : ℕ} {z' : Zone Page}
      (got : __rmqueue_smallest P order mt z ≡ (some page, z')) where
    taken : Taken P z z' page order
    taken = subst (Answer P z order mt) got (__rmqueue_smallest-Answer P z mt order v apart lm lo)

    -- In a valid zone whose free blocks do not overlap, for an order below MAX_ORDER and a migrate
    -- type below MIGRATE_TYPES: when __rmqueue_smallest returns a page, every frame is covered by
    -- the free blocks before as often as after and by the returned block together, the free blocks
    -- left do not overlap, and free_pages has gone down by the size of the block, modulo the range
    -- of an ulong.
    pub __rmqueue_smallest-covers :
        ((p : ℕ)
          → measure (covers p) z.free_list ≡ measure (covers p) z'.free_list + covers p order page)
        × IsApart z'
        × (z'.free_pages ≡ (z.free_pages + ulong_mod - 2 ^ order) % ulong_mod)
    __rmqueue_smallest-covers =
        let t = taken in
        let size = two_pow_mono order 10 (omega arith) in
        (
          λ p. t.kept (covers p) (covers-Additive p),
          λ p. omega (arith, t.kept (covers p) (covers-Additive p), apart p),
          omega
              (arith, t.kept (λ o _. 2 ^ o) size-Additive, t.valid.counted.pages, v.counted.pages),
        )

    -- A block that __rmqueue_smallest takes from a valid zone with no overlapping blocks is freed
    -- again by __free_one_page to any migrate type below MIGRATE_TYPES. It merges with the buddies
    -- above it, from its order up to the first order `o` where the bit of `o` in the page frame
    -- number is set, or the block above is no buddy, or `o` is MAX_ORDER - 1. Where `o` is below
    -- MAX_ORDER - 1 and the bit is set, __free_one_page reads a page past the range of an ulong.
    -- Otherwise it returns and leaves the zone valid, every frame covered by the free blocks as
    -- often as before the block was taken, and free_pages as it was.
    pub rmqueue-free :
        (back : ℕ)
        → back < migrate_types
        → Ends P (Restored z) z' page order (__free_one_page P page page order back z')
    rmqueue-free back lb =
        let t = taken in
        let out : IsOut P z' page order = record {
          off = t.owned;
          aligned = t.aligned;
          small = t.small;
        } in
        Ends-map P (λ z''. Freed P z' z'' page order) (Restored z) z' page order _
          (λ z'' f. (
            f.valid,
            (λ p.
                f.kept (covers p) (covers-Additive p)
                ∙ sym (t.kept (covers p) (covers-Additive p))),
            f.valid.counted.pages
                ∙ ap (λ n. n % ulong_mod)
                    (f.kept (λ o _. 2 ^ o) size-Additive
                      ∙ sym (t.kept (λ o _. 2 ^ o) size-Additive))
                ∙ sym v.counted.pages,
          ))
          (__free_one_page-Ends P back lb z' page order lo t.valid out)
