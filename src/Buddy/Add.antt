-- ===== src/Buddy/Add.antt =====
-- kernel/mm/buddy.c: a page that is in no list is put on one, and may be marked as a guard.
use native.Mathlib.Decide.{ℕ_discrete}
use kernal.Prelude.{
  leb, Bool-cases, ◌⊎◌, inl, inr, sym, ap, ℕ, ◌+◌, ◌^◌, ◌≤◌, ◌<◌, ==_refl, ◌≡◌, ◌≢◌, true, false,
  arith, ◌==◌, if◌then◌else◌, Bool-cases, inl, inr, sym, ap, ◌∙◌,
}
use kernal.Page.{PageOps}
use kernal.Buddy.{
  write, Zone, max_order, migrate_types, ulong_mod, set_page, set_page_guard,
  __add_page_to_free_list,
}
use kernal.Buddy.Valid.{IsValid, IsValidBut, IsEntry, IsCounted, listed_flag}
use kernal.Buddy.Bits.{Aligned}
use kernal.Buddy.Measure.{weigh, is, measure, entries, entries-list, measure-push}

write_other : {A : Type 0} (f : ℕ → A) (q : ℕ) (p : A) (x : ℕ) → x ≢ q → write f q p x ≡ f x
write_other f q p x ne = ground arith

module _ (P : PageOps) where
  open P use {
    Page, page_buddy, page_order, set_page_private, __set_page_buddy, __clear_page_buddy,
    __set_page_guard, buddy-set, buddy-clear, buddy-private, buddy-guard, order-private,
  }

  add-mem_map :
      (z : Zone Page) (q o m p : ℕ)
      → p ≢ q
      → (__add_page_to_free_list P q o m z).mem_map p ≡ z.mem_map p
  unfolding __add_page_to_free_list
  add-mem_map z q o m p ne = ground arith

  add_flag :
      (z : Zone Page) (q o m : ℕ)
      → page_buddy ((__add_page_to_free_list P q o m z).mem_map q) ≡ true
  unfolding __add_page_to_free_list
  add_flag z q o m = rw (==_refl q) (buddy-private _ o ∙ buddy-set _)

  add_order :
      (z : Zone Page) (q o m : ℕ) → page_order ((__add_page_to_free_list P q o m z).mem_map q) ≡ o
  unfolding __add_page_to_free_list
  add_order z q o m = rw (==_refl q) (order-private _ o)

  pub measure-add :
      (g : ℕ → ℕ → ℕ) (z : Zone Page) (q o m : ℕ)
      → o < max_order
      → m < migrate_types
      → measure g (__add_page_to_free_list P q o m z).free_list ≡ measure g z.free_list + g o q
  unfolding __add_page_to_free_list
  measure-add g z q o m lo lm = measure-push g o m q z.free_list lo lm

  -- Where a page was already listed, it still is.
  add-list :
      (z : Zone Page) (q o m p o' m' : ℕ)
      → 0 < weigh (is p) ((__add_page_to_free_list P q o m z).free_list o' m')
      → ((p ≡ q) × (o' ≡ o)) ⊎ (0 < weigh (is p) (z.free_list o' m'))
  unfolding __add_page_to_free_list weigh
  add-list z q o m p o' m' c = ground arith

  module _ (q o m : ℕ) (lo : o < max_order) (lm : m < migrate_types) (aligned : Aligned o q)
      (small : q + 2 ^ o ≤ ulong_mod) {z : Zone Page} (v : IsValidBut P q z) where
    add-IsCounted : IsCounted P (__add_page_to_free_list P q o m z)
    unfolding __add_page_to_free_list
    add-IsCounted = record {
      areas = λ o'.
          ground (
            arith,
            measure-add (λ k _. if k == o' then 1 else 0) z q o m lo lm,
            v.counted.areas o',
          );
      pages = ground (arith, measure-add (λ k _. 2 ^ k) z q o m lo lm, v.counted.pages);
    }

    add-flags :
        (p : ℕ)
        → entries p (__add_page_to_free_list P q o m z).free_list
          ≡ (if page_buddy ((__add_page_to_free_list P q o m z).mem_map p) then 1 else 0)
    add-flags p = elim (ℕ_discrete p q) [
      | yes e ↦
          let here : is q q ≡ 1 = ground arith in
          rw (e, add_flag z q o m)
            (omega (arith, measure-add (λ _. is q) z q o m lo lm, v.absent, here))
      | no ne ↦
          let other : is p q ≡ 0 = ground arith in
          rw (add-mem_map z q o m p ne)
            (omega (arith, measure-add (λ _. is p) z q o m lo lm, v.flags p ne, other))
    ]

    add-IsEntry :
        (p o' m' : ℕ)
        → o' < max_order
        → m' < migrate_types
        → 0 < weigh (is p) ((__add_page_to_free_list P q o m z).free_list o' m')
        → IsEntry P (__add_page_to_free_list P q o m z) p o'
    add-IsEntry p o' m' l k c = elim (add-list z q o m p o' m' c) [
      | inl (e, at) ↦ record {
        order =
            ap (λ t. page_order ((__add_page_to_free_list P q o m z).mem_map t)) e
            ∙ add_order z q o m
            ∙ sym at;
        aligned = rw (e, at) aligned;
        small = rw (e, at) small;
      }
      | inr c' ↦ elim (ℕ_discrete p q) [
        | yes e ↦ absurd (omega (arith, v.absent, entries-list q z.free_list o' m' l k, rw e at c'))
        | no ne ↦
            let old = v.entry p o' m' l k c' in
            record {
              order = ap page_order (add-mem_map z q o m p ne) ∙ old.order;
              aligned = old.aligned;
              small = old.small;
            }
      ]
    ]

    -- The page is then listed once, and the invariant holds with no exception.
    pub add-IsValid : IsValid P (__add_page_to_free_list P q o m z)
    add-IsValid = record { flags = add-flags; entry = add-IsEntry; counted = add-IsCounted }

  -- Other fields of a page that is in no list are of no account.
  pub IsValid-set_page :
      (q : ℕ) (p : Page) {z : Zone Page}
      → IsValid P z
      → page_buddy (z.mem_map q) ≡ false
      → IsValidBut P q (set_page q p z)
  IsValid-set_page q p {z} v flag =
      let none_left : entries q z.free_list ≡ 0 = v.flags q ∙ ap (λ b. if b then 1 else 0) flag in
      record {
        absent = none_left;
        flags = λ x ne. rw (write_other z.mem_map q p x ne) (v.flags x);
        entry = λ x o m l k c. elim (ℕ_discrete x q) [
          | yes e ↦ absurd (omega (arith, none_left, entries-list q z.free_list o m l k, rw e at c))
          | no ne ↦
              let old = v.entry x o m l k c in
              record {
                order = ap page_order (write_other z.mem_map q p x ne) ∙ old.order;
                aligned = old.aligned;
                small = old.small;
              }
        ];
        counted = record { areas = v.counted.areas; pages = v.counted.pages };
      }

  -- A page may change as long as its flag and its order stay.
  pub IsValid-touch :
      (q : ℕ) (p : Page) {z : Zone Page}
      → IsValid P z
      → page_buddy p ≡ page_buddy (z.mem_map q)
      → (page_buddy p ≡ true → page_order p ≡ page_order (z.mem_map q))
      → IsValid P (set_page q p z)
  IsValid-touch q p {z} v flag order = record {
    flags = λ x. elim (ℕ_discrete x q) [
      | yes e ↦ rw (e, ==_refl q, flag) (v.flags q)
      | no ne ↦ rw (write_other z.mem_map q p x ne) (v.flags x)
    ];
    entry = λ x o m l k c.
        let old = v.entry x o m l k c in
        record {
          order = elim (ℕ_discrete x q) [
            | yes e ↦
                let on = listed_flag P z q o m v l k (rw e at c) in
                rw (e, ==_refl q)
                  (order (flag ∙ on) ∙ ap (λ t. page_order (z.mem_map t)) (sym e) ∙ old.order)
            | no ne ↦ ap page_order (write_other z.mem_map q p x ne) ∙ old.order
          ];
          aligned = old.aligned;
          small = old.small;
        };
    counted = record { areas = v.counted.areas; pages = v.counted.pages };
  }

  -- A guard mark on the page that was just added.
  pub guard-IsValid :
      (q o m : ℕ) (z : Zone Page)
      → IsValid P (__add_page_to_free_list P q o m z)
      → IsValid P (set_page_guard P q o (__add_page_to_free_list P q o m z))
  unfolding set_page_guard
  guard-IsValid q o m z v = elim (Bool-cases (leb P.debug_guardpage_minorder o)) [
    | inl e ↦ rw e (
        IsValid-touch q _ v (buddy-private _ o ∙ buddy-guard _)
          (λ _. order-private _ o ∙ sym (add_order z q o m)))
    | inr e ↦ rw e v
  ]

  pub guard-free_list : (q o : ℕ) (z : Zone Page) → (set_page_guard P q o z).free_list ≡ z.free_list
  unfolding set_page_guard
  guard-free_list q o z = elim (Bool-cases (leb P.debug_guardpage_minorder o)) [
    | inl e ↦ rw e
    | inr e ↦ rw e
  ]

  -- Without a write a page that is in no list is passed over too.
  pub IsValid-IsValidBut :
      (q : ℕ) {z : Zone Page} → IsValid P z → page_buddy (z.mem_map q) ≡ false → IsValidBut P q z
  IsValid-IsValidBut q v flag = record {
    absent = v.flags q ∙ ap (λ b. if b then 1 else 0) flag;
    flags = λ p ne. v.flags p;
    entry = v.entry;
    counted = v.counted;
  }

  -- One page changes when a block is added and marked.
  pub guarded-mem_map :
      (z : Zone Page) (q o m p : ℕ)
      → p ≢ q
      → (set_page_guard P q o (__add_page_to_free_list P q o m z)).mem_map p ≡ z.mem_map p
  unfolding set_page_guard
  guarded-mem_map z q o m p ne = elim (Bool-cases (leb P.debug_guardpage_minorder o)) [
    | inl e ↦ rw e (
        write_other (__add_page_to_free_list P q o m z).mem_map q _ p ne ∙ add-mem_map z q o m p ne)
    | inr e ↦ rw e (add-mem_map z q o m p ne)
  ]
