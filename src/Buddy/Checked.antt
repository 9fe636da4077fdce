-- ===== src/Buddy/Checked.antt =====
-- kernel/mm/buddy.c: `__free_pages_ok` gives a block back, or keeps it where a page of it is bad.
use native.Mathlib.Decide.{ℕ_discrete}
use kernal.Prelude.{
  ℕ, zero, suc, ◌+◌, ◌^◌, ◌≤◌, ◌<◌, ◌≡◌, ◌≢◌, ◌⊎◌, inl, inr, refl, ap, ◌∙◌, Option, some, Bool,
  true, false, ◌==◌, Bool-cases, arith,
}
use Prim.Native.Nat.{bit_and}
use kernal.Page.{PageOps, FrameOps}
use kernal.Buddy.{Zone, max_order, migrate_types, set_page}
use kernal.Buddy.Measure.{measure}
use kernal.Buddy.Valid.{IsValid}
use kernal.Buddy.Touch.{Touched, Touched-none, Touched-trans, set_page-Touched}
use kernal.Buddy.Free.{IsOut, Freed}
use kernal.Buddy.Merge.{Ends, Ends-map, __free_one_page-Ends}
use kernal.Buddy.Release.{
  bad_page, clear_check, free_page_check, without_mapping, check_loop, checked, free_page_prepare,
  free_prepared, __free_pages_ok,
}

module _ (P : PageOps) (F : FrameOps P) where
  open P use {Page, page_buddy}

  -- A page as `free_page_check` finds it bad.
  abbrev pub IsBad : Zone Page → ℕ → Bool → Type 0
  IsBad z y b = bad_page P F (without_mapping P F (z.mem_map y)) ≡ b

  -- The count of bad pages against the pages of the block.
  abbrev Counted : Zone Page → ℕ → ℕ → ℕ → ℕ → Type 0
  Counted z page k bad c =
      ((c ≡ bad) × ((y : ℕ) → page ≤ y → y < page + k → IsBad z y false))
      ⊎ ((bad < c) × ((y : ℕ) × (page ≤ y) × (y < page + k) × IsBad z y true))

  set_page_other :
      (z : Zone Page) (q : ℕ) (p : Page) (y : ℕ) → y ≢ q → (set_page q p z).mem_map y ≡ z.mem_map y
  set_page_other z q p y ne = let other : (y == q) ≡ false = ground arith in rw other

  -- One page more in front.
  Counted-step :
      (z z1 : Zone Page) (page k bad d c : ℕ)
      → ((y : ℕ) → y ≢ page → z1.mem_map y ≡ z.mem_map y)
      → (IsBad z page true × (d ≡ 1)) ⊎ (IsBad z page false × (d ≡ 0))
      → Counted z1 (page + 1) k (bad + d) c
      → Counted z page (suc k) bad c
  Counted-step z z1 page k bad d c same (inl (b, e)) (inl (more, _)) =
      inr (omega arith, (page, omega arith, omega arith, b))
  Counted-step z z1 page k bad d c same (inl (b, e)) (inr (more, _)) =
      inr (omega arith, (page, omega arith, omega arith, b))
  Counted-step z z1 page k bad d c same (inr (g, e)) (inl (eq, good)) = inl (
    omega arith,
    λ y lo hi. elim (ℕ_discrete y page) [
      | yes here ↦ rw here g
      | no ne ↦ rw (← same y ne) (good y (omega arith) (omega arith))
    ],
  )
  Counted-step z z1 page k bad d c same (inr (g, e)) (inr (more, (y, lo, hi, b))) =
      let other : y ≢ page = omega arith in
      inr (omega arith, (y, omega arith, omega arith, rw (← same y other) b))

  check_one :
      (z : Zone Page) (page : ℕ)
      → (IsBad z page true × ((free_page_check P F (without_mapping P F (z.mem_map page))).1 ≡ 1))
        ⊎ (IsBad z page false
            × ((free_page_check P F (without_mapping P F (z.mem_map page))).1 ≡ 0))
  unfolding free_page_check
  check_one z page = elim (Bool-cases (bad_page P F (without_mapping P F (z.mem_map page)))) [
    | inl e ↦ inl (e, rw e)
    | inr e ↦ inr (e, rw e)
  ]

  check_loop-Counted :
      (k page bad : ℕ) (z : Zone Page) → Counted z page k bad (check_loop P F k page bad z).0
  unfolding check_loop
  check_loop-Counted zero page bad z = inl (refl, λ y lo hi. absurd (omega arith))
  check_loop-Counted (suc k) page bad z =
      let r = free_page_check P F (without_mapping P F (z.mem_map page)) in
      Counted-step z (set_page page r.0 z) page k bad r.1 _ (λ y ne. set_page_other z page r.0 y ne)
        (check_one z page) (check_loop-Counted k (page + 1) (bad + r.1) (set_page page r.0 z))

  free_page_check-page_buddy : (p : Page) → page_buddy (free_page_check P F p).0 ≡ page_buddy p
  unfolding free_page_check
  free_page_check-page_buddy p = elim (Bool-cases (bad_page P F p)) [
    | inl e ↦ rw e
    | inr e ↦ rw e (
        let q = F.page_cpupid_reset_last p in
        elim (Bool-cases (bit_and (F.flags q) F.page_flags_check_at_prep == 0)) [
          | inl e' ↦ rw e' (F.buddy-cpupid p)
          | inr e' ↦ rw e' (F.buddy-flags q _ ∙ F.buddy-cpupid p)
        ])
  ]

  without_mapping-page_buddy : (p : Page) → page_buddy (without_mapping P F p) ≡ page_buddy p
  without_mapping-page_buddy p = elim (Bool-cases (F.page_anon p)) [
    | inl e ↦ rw e (F.buddy-mapping p)
    | inr e ↦ rw e
  ]

  check_loop-Touched :
      (k page bad : ℕ) (z : Zone Page)
      → IsValid P z
      → ((y : ℕ) → page ≤ y → y < page + k → page_buddy (z.mem_map y) ≡ false)
      → Touched P z (check_loop P F k page bad z).1
  unfolding check_loop
  check_loop-Touched zero page bad z v off = Touched-none P z v
  check_loop-Touched (suc k) page bad z v off =
      let r = free_page_check P F (without_mapping P F (z.mem_map page)) in
      let same = free_page_check-page_buddy _ ∙ without_mapping-page_buddy (z.mem_map page) in
      let t = set_page-Touched P z page r.0 v (off page (omega arith) (omega arith)) same in
      Touched-trans P z (set_page page r.0 z) _ t (
        check_loop-Touched k (page + 1) (bad + r.1) (set_page page r.0 z) t.valid
          (λ y lo hi. t.flag y ∙ off y (omega arith) (omega arith)))

  -- How `__free_pages_ok` ends: the block goes back from the zone `z1` that the checks leave, or it
  -- stays out of the lists.
  abbrev pub Released : Zone Page → Zone Page → Option (Zone Page) → ℕ → ℕ → Type 0
  Released z z1 r page order =
      (((y : ℕ) → page ≤ y → y < page + 2 ^ order → IsBad z y false)
        × Ends P (λ z'. Freed P z z' page order) z1 page order r)
      ⊎ (((y : ℕ) × (page ≤ y) × (y < page + 2 ^ order) × IsBad z y true)
          × ((z' : Zone Page) × (r ≡ some z') × IsValid P z' × (z'.free_list ≡ z.free_list)))

  module _ (z : Zone Page) (page order : ℕ) (v : IsValid P z) (o : IsOut P z page order)
      (off : (y : ℕ) → page ≤ y → y < page + 2 ^ order → page_buddy (z.mem_map y) ≡ false)
      (lo : order < max_order)
      (types : (p : Page) → P.get_freepage_migratetype p < migrate_types) where
    checked-Released :
        (r : ℕ × Zone Page)
        → Counted z page (2 ^ order) 0 r.0
        → Touched P z r.1
        → Released z
            (checked P F page r).1
            (free_prepared P F page order (checked P F page r))
            page
            order
    checked-Released (zero, z1) (inr (more, _)) t = absurd (omega arith)
    checked-Released (suc bad, z1) (inl (e, _)) t = absurd (omega arith)
    checked-Released (suc bad, z1) (inr (more, b)) t = inr (b, (_, refl, t.valid, t.lists))
    checked-Released (zero, z1) (inl (e, good)) t =
        let p = clear_check P F (F.page_cpupid_reset_last (z1.mem_map page)) in
        let here = t.flag page ∙ o.off in
        let u = set_page-Touched P z1 page p t.valid here (F.buddy-flags _ _ ∙ F.buddy-cpupid _) in
        let out : IsOut P (set_page page p z1) page order = record {
          off = u.flag page ∙ here;
          aligned = o.aligned;
          small = o.small;
        } in
        let z2 = set_page page p z1 in
        inl (
          good,
          Ends-map P (λ z'. Freed P z2 z' page order) (λ z'. Freed P z z' page order) z2 page order
              _
              (λ z' f. record {
                valid = f.valid;
                kept = λ g a. f.kept g a ∙ ap (λ l. measure g l + g order page) t.lists;
              })
              (__free_one_page-Ends P _ (types _) z2 page order lo u.valid out),
        )

    -- In a valid zone, for an aligned block below the range of an ulong none of whose pages heads
    -- a free block, where migrate types are below MIGRATE_TYPES: where free_page_check finds a
    -- page of the block bad, __free_pages_ok returns, leaves the free lists as they were and the
    -- zone valid. Otherwise the block merges with the buddies above it, from its order up to the
    -- first order `o` where the bit of `o` in the page frame number is set, or the block above is
    -- no buddy, or `o` is MAX_ORDER - 1. There __free_pages_ok reads a page past the range of an
    -- ulong where `o` is below MAX_ORDER - 1 and the bit is set, and elsewhere it gives the block
    -- back, whole, and the zone stays valid.
    pub __free_pages_ok-Released :
        Released z
          (free_page_prepare P F page order z).1
          (__free_pages_ok P F page order z)
          page
          order
    unfolding __free_pages_ok free_page_prepare
    __free_pages_ok-Released =
        checked-Released (check_loop P F (2 ^ order) page 0 z)
          (check_loop-Counted (2 ^ order) page 0 z) (check_loop-Touched (2 ^ order) page 0 z v off)
