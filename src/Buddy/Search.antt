-- ===== src/Buddy/Search.antt =====
-- kernel/mm/buddy.c: which block `__rmqueue_fallback` finds, and how it ends where there is none.
use kernal.Prelude.{
  ℕ, zero, suc, ◌+◌, ◌-◌, ◌≤◌, ◌<◌, ◌≡◌, ◌≢◌, ◌⊎◌, inl, inr, refl, ap, ◌∙◌, Bool, false, List, [],
  ◌∷◌, ◌==◌, List-cases, Bool-cases, arith,
}
use native.Mathlib.Decide.{ℕ_discrete}
use kernal.Page.{PageOps}
use kernal.Buddy.{Zone, max_order, migrate_types}
use kernal.Buddy.Valid.{IsValid}
use kernal.Buddy.Cover.{IsApart}
use kernal.Buddy.Alloc.{Taken, take_page-Taken}
use kernal.Buddy.Fallback.{
  migrate_reserve, Suitable, suitable, unsuitable, off_row, Found, found, nothing, out_of_range,
  suitable_loop, find_suitable_fallback, take_fallback, fallback_loop, __rmqueue_fallback,
  fallbacks,
}
use kernal.Buddy.Steal.{take_fallback-take_page}

-- The list of the order and the type has an entry.
abbrev pub HasBlock : {A : Type 0} → Zone A → ℕ → ℕ → Type 0
HasBlock z order mt = (page : ℕ) × (rest : List ℕ) × (z.free_list order mt ≡ page ∷ rest)

abbrev TwoRow : {A : Type 0} → Zone A → ℕ → ℕ → ℕ → Suitable → Type 0
TwoRow z order a b (suitable f can) = ((f ≡ a) ⊎ (f ≡ b)) × HasBlock z order f
TwoRow z order a b unsuitable = (z.free_list order a ≡ []) × (z.free_list order b ≡ [])
TwoRow z order a b off_row = ⊥

-- No block of another of the three types that pages are allocated of, from the order up.
abbrev pub NoOther : {A : Type 0} → Zone A → ℕ → ℕ → Type 0
NoOther z low mt =
    (c f : ℕ)
    → low ≤ c
    → c < max_order
    → f < migrate_reserve
    → f ≢ mt
    → (z.nr_free c ≡ 0) ⊎ (z.free_list c f ≡ [])

abbrev SuitableAnswer : {A : Type 0} → Zone A → ℕ → ℕ → Suitable → Type 0
SuitableAnswer z order mt (suitable f can) = (f < migrate_reserve) × (f ≢ mt) × HasBlock z order f
SuitableAnswer z order mt unsuitable =
    (f : ℕ) → f < migrate_reserve → f ≢ mt → (z.nr_free order ≡ 0) ⊎ (z.free_list order f ≡ [])
SuitableAnswer z order mt off_row = ⊥

-- The page is the first of a list of another type, of the largest order that has one.
abbrev pub IsLargest : {A : Type 0} → Zone A → ℕ → ℕ → ℕ → Type 0
IsLargest z order mt page =
    (n f : ℕ) × (rest : List ℕ) × (order + n < max_order)
    × (f < migrate_reserve)
    × (f ≢ mt)
    × (z.free_list (order + n) f ≡ page ∷ rest)
    × NoOther z (suc (order + n)) mt

abbrev pub FallbackAnswer : (P : PageOps) → Zone P.Page → ℕ → ℕ → Found (Zone P.Page) → Type 0
FallbackAnswer P z order mt (found page z') = Taken P z z' page order × IsLargest z order mt page
FallbackAnswer P z order mt nothing = (0 < order) × NoOther z order mt
FallbackAnswer P z order mt out_of_range = (order ≡ 0) × NoOther z order mt

module _ (P : PageOps) (zone_end_pfn : Zone P.Page → ℕ) where
  open P use {Page, pageblock_order}

  suitable_loop-TwoRow :
      (a b : ℕ) (row : List ℕ) (order mt : ℕ) (z : Zone Page)
      → a < migrate_types
      → b < migrate_types
      → TwoRow z order a b
          (suitable_loop P zone_end_pfn (a ∷ b ∷ migrate_types ∷ row) order mt false false z)
  unfolding suitable_loop
  suitable_loop-TwoRow a b row order mt z la lb =
      let na : (a == migrate_types) ≡ false = ground arith in
      let nb : (b == migrate_types) ≡ false = ground arith in
      elim (List-cases (z.free_list order a)) [
        | inl e ↦ elim (List-cases (z.free_list order b)) [
          | inl e' ↦ rw (na, e, nb, e') (e, e')
          | inr (page, rest, e') ↦ rw (na, e, nb, e') (inr refl, (page, rest, e'))
        ]
        | inr (page, rest, e) ↦ rw (na, e) (inl refl, (page, rest, e))
      ]

  module _ (z : Zone Page) (mt order a b : ℕ) (la : a < migrate_reserve) (lb : b < migrate_reserve)
      (na : a ≢ mt) (nb : b ≢ mt)
      (all : (f : ℕ) → f < migrate_reserve → f ≢ mt → (f ≡ a) ⊎ (f ≡ b)) where
    TwoRow-SuitableAnswer : (r : Suitable) → TwoRow z order a b r → SuitableAnswer z order mt r
    TwoRow-SuitableAnswer (suitable f can) (inl e, block) = (rw e la, rw e na, block)
    TwoRow-SuitableAnswer (suitable f can) (inr e, block) = (rw e lb, rw e nb, block)
    TwoRow-SuitableAnswer unsuitable (ea, eb) = λ f l n. elim (all f l n) [
      | inl e ↦ inr (ap (z.free_list order) e ∙ ea)
      | inr e ↦ inr (ap (z.free_list order) e ∙ eb)
    ]
    TwoRow-SuitableAnswer off_row t = t

  row-SuitableAnswer :
      (mt order : ℕ) (z : Zone Page)
      → mt < migrate_reserve
      → SuitableAnswer z order mt
          (suitable_loop P zone_end_pfn (fallbacks mt) order mt false false z)
  row-SuitableAnswer zero order z l =
      TwoRow-SuitableAnswer z 0 order 2 1 (omega arith) (omega arith) (omega arith) (omega arith)
        (λ f l n. ground arith) _ (suitable_loop-TwoRow 2 1 _ order 0 z (omega arith) (omega arith))
  row-SuitableAnswer (suc zero) order z l =
      TwoRow-SuitableAnswer z 1 order 2 0 (omega arith) (omega arith) (omega arith) (omega arith)
        (λ f l n. ground arith) _ (suitable_loop-TwoRow 2 0 _ order 1 z (omega arith) (omega arith))
  row-SuitableAnswer (suc (suc zero)) order z l =
      TwoRow-SuitableAnswer z 2 order 0 1 (omega arith) (omega arith) (omega arith) (omega arith)
        (λ f l n. ground arith) _ (suitable_loop-TwoRow 0 1 _ order 2 z (omega arith) (omega arith))
  row-SuitableAnswer (suc (suc (suc n))) order z l = absurd (omega arith)

  find-SuitableAnswer :
      (mt order : ℕ) (z : Zone Page)
      → mt < migrate_reserve
      → SuitableAnswer z order mt (find_suitable_fallback P zone_end_pfn order mt false z)
  unfolding find_suitable_fallback
  find-SuitableAnswer mt order z l = elim (Bool-cases (z.nr_free order == 0)) [
    | inl e ↦ rw e (λ f l n. inl (ground arith))
    | inr e ↦ rw e (row-SuitableAnswer mt order z l)
  ]

  module _ (z : Zone Page) (mt order : ℕ) (v : IsValid P z) (apart : IsApart z)
      (lm : mt < migrate_reserve) (big : 0 < pageblock_order) where
    -- One round that finds a type, and one that does not.
    took :
        (n f : ℕ) (can : Bool) (page : ℕ) (rest : List ℕ)
        → order + n < max_order
        → f < migrate_reserve
        → z.free_list (order + n) f ≡ page ∷ rest
        → Taken P z (take_fallback P zone_end_pfn page order n f can mt z) page order
    took n f can page rest l lf e =
        rw (take_fallback-take_page P zone_end_pfn page order n f can mt z big)
          (take_page-Taken P z mt order v apart (omega arith) n page f rest l (omega arith) e)

    widen :
        (n : ℕ)
        → ((f : ℕ)
            → f < migrate_reserve
            → f ≢ mt
            → (z.nr_free (order + n) ≡ 0) ⊎ (z.free_list (order + n) f ≡ []))
        → NoOther z (suc (order + n)) mt
        → NoOther z (order + n) mt
    widen n here above c f lo hi lf nf = elim (ℕ_discrete c (order + n)) [
      | yes e ↦ rw e (here f lf nf)
      | no ne ↦ above c f (omega arith) hi lf nf
    ]

    fallback_loop-Answer :
        (n : ℕ)
        → order + n ≤ max_order
        → NoOther z (order + n) mt
        → FallbackAnswer P z order mt (fallback_loop P zone_end_pfn n order mt z)
    unfolding fallback_loop
    fallback_loop-Answer zero top none_left = elim (Bool-cases (order == 0)) [
      | inl e ↦ rw e (ground arith, λ c f lo. none_left c f (omega arith))
      | inr e ↦ rw e (ground arith, λ c f lo. none_left c f (omega arith))
    ]
    fallback_loop-Answer (suc n) top none_left =
        let up : NoOther z (suc (order + n)) mt = λ c f lo. none_left c f (omega arith) in
        round (find_suitable_fallback P zone_end_pfn (order + n) mt false z) refl
          (find-SuitableAnswer mt (order + n) z lm) up
          (λ w. fallback_loop-Answer n (omega arith) (widen n w up))
      where
        round :
            (r : Suitable)
            → find_suitable_fallback P zone_end_pfn (order + n) mt false z ≡ r
            → SuitableAnswer z (order + n) mt r
            → NoOther z (suc (order + n)) mt
            → (((f : ℕ)
                  → f < migrate_reserve
                  → f ≢ mt
                  → (z.nr_free (order + n) ≡ 0) ⊎ (z.free_list (order + n) f ≡ []))
                → FallbackAnswer P z order mt (fallback_loop P zone_end_pfn n order mt z))
            → FallbackAnswer P z order mt (fallback_loop P zone_end_pfn (suc n) order mt z)
        round (suitable f can) eq (lf, nf, (page, rest, e)) up next =
            rw (eq, fallback_loop)
              (rw e (
                took n f can page rest (omega arith) lf e,
                (n, f, rest, omega arith, lf, nf, e, up),
              ))
        round unsuitable eq w up next = rw (eq, fallback_loop) (next w)
        round off_row eq w up next = absurd w

    -- In a valid zone with no overlapping free blocks, with pageblock_order above 0, an order
    -- below MAX_ORDER and one of the types unmovable, movable and reclaimable: the page that
    -- __rmqueue_fallback returns is the first of a list of another of these types, of the highest
    -- order at which one of them counts a block and is not empty, and it makes up with the free
    -- blocks left those that there were. NULL is returned only for an order above 0, and for order
    -- 0 the search reads out of range instead, each where no order from the wanted one up has such
    -- a list.
    pub __rmqueue_fallback-Answer :
        order < max_order
        → FallbackAnswer P z order mt (__rmqueue_fallback P zone_end_pfn order mt z)
    unfolding __rmqueue_fallback
    __rmqueue_fallback-Answer l =
        fallback_loop-Answer (max_order - order) (omega arith)
          (λ c f lo hi lf nf. absurd (omega arith))
