-- ===== src/Buddy/Merge.antt =====
-- kernel/mm/buddy.c: how `__free_one_page` ends: it merges upwards, and reads out of range below.
use Prim.Native.Nat.{bit_and}
use native.Mathlib.Nat.{one-le-pow}
use native.Mathlib.Decide.{ℕ_discrete}
use kernal.Prelude.{
  ℕ, zero, suc, ◌+◌, ◌-◌, ◌^◌, ◌≤◌, ◌<◌, ◌≡◌, ◌⊎◌, Bool, true, false, inl, inr, sym, ◌∙◌, refl, leb,
  Option, none, some, arith, Bool-cases,
}
use kernal.Page.{PageOps}
use kernal.Buddy.{
  Zone, max_order, migrate_types, ulong_mod, page_offset, __find_buddy_pfn, page_is_buddy,
  free_loop, __free_one_page, __del_page_from_free_list, __add_page_to_free_list, set_page,
}
use kernal.Buddy.Bits.{
  bit, flip, xor-flip, and-flip, two_pow-le_of_bit, two_pow_suc, two_pow_mono, unset_fits,
}
use kernal.Buddy.Valid.{IsValid}
use kernal.Buddy.Del.{del-IsValid, del-mem_map}
use kernal.Buddy.Free.{Freed, IsOut, is_buddy_flag, done-Freed, merge-Freed, merged-IsOut}

-- Where the bit is set, the difference of the buddy's number and the page's wraps, and the address
-- that it gives lies past every page.
buddy_above :
    (page order : ℕ)
    → page < ulong_mod
    → order < max_order
    → bit order page ≡ true
    → ulong_mod ≤ page_offset page (__find_buddy_pfn page order) page
unfolding page_offset __find_buddy_pfn
buddy_above page order small lo set =
    let fits = two_pow_mono order 10 (omega arith) in
    let pos = one-le-pow order 2 (omega arith) in
    let low : flip order page ≡ page - 2 ^ order = rw set in
    rw (xor-flip order page, low) (omega (arith, two_pow-le_of_bit order page set))

buddy_next :
    (page order : ℕ)
    → order < max_order
    → bit order page ≡ false
    → page_offset page (__find_buddy_pfn page order) page ≡ page + 2 ^ order
unfolding page_offset __find_buddy_pfn
buddy_next page order lo unset =
    let fits = two_pow_mono order 10 (omega arith) in
    let high : flip order page ≡ page + 2 ^ order = rw unset in
    rw (xor-flip order page, high) (omega arith)

combined_self :
    (page order : ℕ) → bit order page ≡ false → bit_and (__find_buddy_pfn page order) page ≡ page
unfolding __find_buddy_pfn
combined_self page order unset = rw (xor-flip order page, and-flip order page) (rw unset)

page_offset_self : (page : ℕ) → page_offset page page page ≡ page
unfolding page_offset
page_offset_self page = omega arith

module _ (P : PageOps) where
  open P use {Page}

  -- Whether the block of an order above `page` is its buddy.
  abbrev pub pairs : Zone Page → ℕ → ℕ → Bool
  pairs z page o = page_is_buddy P (z.mem_map page) (z.mem_map (page + 2 ^ o)) o

  -- From an order on the block merges up to `o`. There it reads out of range where its bit is set,
  -- so that the buddy lies below, and otherwise it ends in a zone as `Q` says, where `o` is the last
  -- order or the block above is no buddy.
  abbrev pub Ends : (Zone Page → Type 0) → Zone Page → ℕ → ℕ → Option (Zone Page) → Type 0
  Ends Q z page order r =
      (o : ℕ) × (order ≤ o)
      × (o < max_order)
      × ((i : ℕ) → order ≤ i → i < o → (bit i page ≡ false) × (pairs z page i ≡ true))
      × (((o < max_order - 1) × (bit o page ≡ true) × (r ≡ none))
          ⊎ (((o ≡ max_order - 1) ⊎ ((bit o page ≡ false) × (pairs z page o ≡ false)))
              × ((z' : Zone Page) × (r ≡ some z') × Q z')))

  pub Ends-map :
      (Q R : Zone Page → Type 0) (z : Zone Page) (page order : ℕ) (r : Option (Zone Page))
      → ((z' : Zone Page) → Q z' → R z')
      → Ends Q z page order r
      → Ends R z page order r
  Ends-map Q R z page order r f (o, lo, hi, up, inl e) = (o, lo, hi, up, inl e)
  Ends-map Q R z page order r f (o, lo, hi, up, inr (stop, (z', e, q))) =
      (o, lo, hi, up, inr (stop, (z', e, f z' q)))

  module _ (mt : ℕ) (lm : mt < migrate_types) where
    pairs-del :
        (z : Zone Page) (page o d i : ℕ)
        → o < i
        → pairs (__del_page_from_free_list P (page + 2 ^ o) o d z) page i ≡ pairs z page i
    pairs-del z page o d i l =
        let pos = one-le-pow o 2 (omega arith) in
        let more = two_pow_mono (suc o) i (omega arith) in
        let same = del-mem_map P z (page + 2 ^ o) o d in
        rw (same page (omega arith), same (page + 2 ^ i) (omega (arith, pos, more, two_pow_suc o)))
          refl

    -- One order more in front.
    Ends-suc :
        (Q : Zone Page → Type 0) (z : Zone Page) (page order d : ℕ) (r : Option (Zone Page))
        → bit order page ≡ false
        → pairs z page order ≡ true
        → Ends Q (__del_page_from_free_list P (page + 2 ^ order) order d z) page (order + 1) r
        → Ends Q z page order r
    Ends-suc Q z page order d r low pair (o, lo, hi, up, end) =
        let same = pairs-del z page order d in
        (
          o,
          omega arith,
          hi,
          (λ i l h. elim (ℕ_discrete i order) [
            | yes e ↦ rw e (low, pair)
            | no ne ↦ let u = up i (omega arith) h in (u.0, sym (same i (omega arith)) ∙ u.1)
          ]),
          elim end [
            | inl e ↦ inl e
            | inr (inl last, q) ↦ inr (inl last, q)
            | inr (inr (b, n), q) ↦ inr (inr (b, sym (same o (omega arith)) ∙ n), q)
          ],
        )

    free_loop-Ends :
        (k : ℕ) (z : Zone Page) (page order : ℕ)
        → k + order ≡ max_order - 1
        → IsValid P z
        → IsOut P z page order
        → Ends (λ z'. Freed P z z' page order) z page order (free_loop P k page page order mt z)
    unfolding free_loop
    free_loop-Ends zero z page order t v o = (
      order,
      omega arith,
      omega arith,
      (λ i l h. absurd (omega arith)),
      inr (inl (omega arith), (_, refl, done-Freed P mt lm z page order _ (omega arith) v o)),
    )
    free_loop-Ends (suc k) z page order t v o =
        let pos = one-le-pow order 2 (omega arith) in
        elim (Bool-cases (bit order page)) [
          | inl high ↦
              let out = buddy_above page order (omega (arith, o.small, pos)) (omega arith) high in
              let past : leb ulong_mod (page_offset page (__find_buddy_pfn page order) page)
                  ≡ true =
                ground arith in
              (
                order,
                omega arith,
                omega arith,
                (λ i l h. absurd (omega arith)),
                inl (omega arith, high, rw past refl),
              )
          | inr low ↦
              let next = buddy_next page order (omega arith) low in
              let within : leb ulong_mod (page + 2 ^ order) ≡ false =
                let room =
                  unset_fits order 32 page (omega arith) low (omega (arith, o.small, pos)) in
                ground arith in
              let p = P.set_page_order (z.mem_map page) order in
              let stay = __add_page_to_free_list P page order mt (set_page page p z) in
              elim (Bool-cases (pairs z page order)) [
                | inr e ↦ (
                  order,
                  omega arith,
                  omega arith,
                  (λ i l h. absurd (omega arith)),
                  inr (
                    inr (low, e),
                    (
                      stay,
                      rw (next, within, e) refl,
                      done-Freed P mt lm z page order p (omega arith) v o,
                    ),
                  ),
                )
                | inl e ↦
                    let (flag, at) = is_buddy_flag P (z.mem_map page) _ order e in
                    let d = P.get_freepage_migratetype (z.mem_map (page + 2 ^ order)) in
                    let z1 = __del_page_from_free_list P (page + 2 ^ order) order d z in
                    let run = free_loop P k page page (order + 1) mt z1 in
                    rw (next, within, e, combined_self page order low, page_offset_self page)
                      (Ends-suc (λ z'. Freed P z z' page order) z page order d run low e
                        (Ends-map (λ z'. Freed P z1 z' page (order + 1))
                          (λ z'. Freed P z z' page order) z1 page (order + 1) run
                          (λ z' f.
                            merge-Freed P mt lm z page order z' (omega arith) v low flag at d f)
                          (free_loop-Ends k z1 page (order + 1) (omega arith)
                            (del-IsValid P (page + 2 ^ order) order d v flag at (omega arith))
                            (merged-IsOut P mt lm z page order d v o low flag at))))
              ]
        ]

    -- `__free_one_page` makes the block free, and changes nothing else about what is free, or reads
    -- out of range.
    pub __free_one_page-Ends :
        (z : Zone Page) (page order : ℕ)
        → order < max_order
        → IsValid P z
        → IsOut P z page order
        → Ends (λ z'. Freed P z z' page order) z page order (__free_one_page P page page order mt z)
    unfolding __free_one_page
    __free_one_page-Ends z page order lo v o =
        free_loop-Ends (max_order - 1 - order) z page order (omega arith) v o
