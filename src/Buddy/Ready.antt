-- ===== src/Buddy/Ready.antt =====
-- kernel/mm/buddy.c: the zone that `init_zone` leaves.
use kernal.Prelude.{
  ℕ, zero, suc, ◌+◌, ◌≤◌, ◌<◌, ◌≡◌, ◌≢◌, refl, ap, subst, ◌∙◌, ◌⊎◌, inl, inr, ◌^◌, ltb→lt, sym,
  ==_refl, Bool-cases, get_elem?-set_self, false, ◌&&◌, none, some, List, [], ◌==◌, ltb, leb,
  if◌then◌else◌, arith, get_elem?, length,
}
use kernal.Prelude.Int.{ℤ, pos}
use kernal.Task.Fields.{Pointer}
use kernal.Page.{PageOps}
use kernal.Buddy.{Zone, write, max_order, migrate_types}
use kernal.Buddy.Sum.{total-ext}
use kernal.Buddy.Measure.{measure, weigh, is, measure-empty}
use kernal.Buddy.Valid.{IsValid}
use kernal.Buddy.Cover.{covers, IsApart}
use kernal.Buddy.Init.{max_nr_zones, ZoneState, Zones, type_loop, area_loop, init_state, init_zone}

type_loop-list :
    (n mt order : ℕ) (l : ℕ → ℕ → List ℕ) (o m : ℕ)
    → type_loop n mt order l o m
      ≡ (if (o == order) && (leb mt m && ltb m (mt + n)) then [] else l o m)
unfolding type_loop
type_loop-list zero mt order l o m = ground arith
type_loop-list (suc n) mt order l o m = ground (
  arith,
  type_loop-list n (mt + 1) order (λ (o m : ℕ). if (o == order) && (m == mt) then [] else l o m) o
      m,
)

module _ {A : Type 0} where
  area_loop-map : (n order : ℕ) (z : Zone A) → (area_loop n order z).mem_map ≡ z.mem_map
  unfolding area_loop
  area_loop-map zero order z = refl
  area_loop-map (suc n) order z = area_loop-map n (order + 1) _

  area_loop-nr_free :
      (n order : ℕ) (z : Zone A) (o : ℕ)
      → (area_loop n order z).nr_free o
        ≡ (if leb order o && ltb o (order + n) then 0 else z.nr_free o)
  unfolding area_loop
  area_loop-nr_free zero order z o = ground arith
  area_loop-nr_free (suc n) order z o = area_loop-nr_free n (order + 1) _ o ∙ ground arith

  area_loop-list :
      (n order : ℕ) (z : Zone A) (o m : ℕ)
      → m < migrate_types
      → (area_loop n order z).free_list o m
        ≡ (if leb order o && ltb o (order + n) then [] else z.free_list o m)
  unfolding area_loop
  area_loop-list zero order z o m l = ground arith
  area_loop-list (suc n) order z o m l =
      area_loop-list n (order + 1) _ o m l
      ∙ ground (arith, type_loop-list migrate_types 0 order z.free_list o m)

  cleared-list :
      (z : Zone A) (o m : ℕ)
      → o < max_order
      → m < migrate_types
      → (area_loop max_order 0 z).free_list o m ≡ []
  cleared-list z o m lo lm = area_loop-list max_order 0 z o m lm ∙ ground arith

  -- The lists of the zone are empty.
  cleared-measure : (z : Zone A) (g : ℕ → ℕ → ℕ) → measure g (area_loop max_order 0 z).free_list ≡ 0
  unfolding measure weigh
  cleared-measure z g =
      total-ext (λ o m. weigh (g o) ((area_loop max_order 0 z).free_list o m)) (λ _ _. 0)
        (λ o m lo lm. ap (weigh (g o)) (cleared-list z o m lo lm))
      ∙ measure-empty g

  cleared-nr_free :
      (z : Zone A)
      → ((o : ℕ) → max_order ≤ o → z.nr_free o ≡ 0)
      → (o : ℕ) → (area_loop max_order 0 z).nr_free o ≡ 0
  cleared-nr_free z rest o = area_loop-nr_free max_order 0 z o ∙ grind (arith, rest o)

unlisted : (q : ℕ) {l : List ℕ} → l ≡ [] → 0 < weigh (is q) l → ⊥
unfolding weigh
unlisted q e c = omega (arith, subst (λ l. 0 < weigh (is q) l) e c)

-- How `init_zone` enters a zone in the table of `s`.
abbrev pub Registered : {A : Type 0} → ℕ → Zones A → Zones A → Type 0
Registered p s s' =
    ((s.nr_zones < max_nr_zones)
      × (s'.nr_zones ≡ s.nr_zones + 1)
      × (get_elem? s'.zones s.nr_zones ≡ some (some p)))
    ⊎ ((max_nr_zones ≤ s.nr_zones) × (s'.nr_zones ≡ s.nr_zones) × (s'.zones ≡ s.zones))

module _ (P : PageOps) where
  open P use {Page, page_buddy}

  -- The zone whose lists and counts are cleared.
  pub cleared-IsValid :
      (z : Zone Page) (start size : ℕ)
      → ((q : ℕ) → page_buddy (z.mem_map q) ≡ false)
      → ((o : ℕ) → max_order ≤ o → z.nr_free o ≡ 0)
      → IsValid P (record (area_loop max_order 0 z) {
        zone_start_pfn = start;
        spanned_pages = size;
        free_pages = 0;
      })
  cleared-IsValid z start size unflagged rest = record {
    flags = λ q. cleared-measure z (λ _. is q) ∙ rw (area_loop-map max_order 0 z, unflagged q) refl;
    entry = λ q o m lo lm c. absurd (unlisted q (cleared-list z o m lo lm) c);
    counted = record {
      areas = λ o.
          cleared-nr_free z rest o
          ∙ omega (arith, cleared-measure z (λ o' _. if o' == o then 1 else 0));
      pages = omega (arith, cleared-measure z (λ o _. 2 ^ o));
    };
  }

  -- A zone without free blocks.
  abbrev pub IsReady : ZoneState Page → Type 0
  IsReady t = IsValid P t.area × IsApart t.area × ((g : ℕ → ℕ → ℕ) → measure g t.area.free_list ≡ 0)

  abbrev pub Initialised : Pointer → Zones Page → ℤ × Zones Page → Type 0
  Initialised none s (r, s') = (r ≡ pos 3) × (s' ≡ s)
  Initialised (some p) s (r, s') =
      (r ≡ pos 0)
      × IsReady (s'.zone p)
      × ((q : ℕ) → q ≢ p → s'.zone q ≡ s.zone q)
      × Registered p s s'

  init_state-IsReady :
      (start size : ℕ) (t : ZoneState Page)
      → ((q : ℕ) → page_buddy (t.area.mem_map q) ≡ false)
      → ((o : ℕ) → max_order ≤ o → t.area.nr_free o ≡ 0)
      → IsReady (init_state start size t)
  unfolding init_state
  init_state-IsReady start size t unflagged rest = (
    cleared-IsValid t.area start size unflagged rest,
    λ p. omega (arith, cleared-measure t.area (covers p)),
    cleared-measure t.area,
  )

  -- For zones none of whose pages has the flag PageBuddy and whose counts end at MAX_ORDER, and a
  -- table of zones of MAX_NR_ZONES places: init_zone answers 0 and leaves a valid zone with no
  -- free block, whatever its lists and counts held, changes no other zone, and enters the zone in
  -- the next place of the table where there is one, but answers 0 also where there is none. For
  -- NULL it answers -EINVAL, which is the positive number 3, and changes nothing.
  pub init_zone-Initialised :
      (zone : Pointer) (start_pfn size : ℕ) (s : Zones Page)
      → length s.zones ≡ max_nr_zones
      → ((p q : ℕ) → page_buddy ((s.zone p).area.mem_map q) ≡ false)
      → ((p o : ℕ) → max_order ≤ o → (s.zone p).area.nr_free o ≡ 0)
      → Initialised zone s (init_zone zone start_pfn size s)
  unfolding init_zone
  init_zone-Initialised none start size s places unflagged rest = (refl, refl)
  init_zone-Initialised (some p) start size s places unflagged rest =
      let t = init_state start size (s.zone p) in
      let here : write s.zone p t p ≡ t = rw (==_refl p) refl in
      let ready : IsReady (write s.zone p t p) =
        subst IsReady (sym here)
          (init_state-IsReady start size (s.zone p) (unflagged p) (rest p)) in
      let others : (q : ℕ) → q ≢ p → write s.zone p t q ≡ s.zone q = λ q ne. ground arith in
      elim (Bool-cases (ltb s.nr_zones max_nr_zones)) [
        | inl e ↦
            let l = ltb→lt s.nr_zones max_nr_zones e in
            rw e (
              refl,
              ready,
              others,
              inl (
                l,
                refl,
                get_elem?-set_self s.zones s.nr_zones (some p) (omega (arith, places, l)),
              ),
            )
        | inr e ↦ rw e (refl, ready, others, inr (ground arith, refl, refl))
      ]
