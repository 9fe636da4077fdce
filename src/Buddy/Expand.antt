-- ===== src/Buddy/Expand.antt =====
-- kernel/mm/buddy.c: `expand` gives back the upper halves of a block that is larger than wanted.
use kernal.Prelude.{ℕ, zero, suc, ◌+◌, ◌^◌, ◌≤◌, ◌<◌, ◌≡◌, ◌≢◌, false, ap, ◌∙◌, refl, arith}
use native.Mathlib.Nat.{one-le-pow}
use kernal.Page.{PageOps}
use kernal.Buddy.{
  Zone, max_order, migrate_types, ulong_mod, __add_page_to_free_list, set_page_guard, expand,
}
use kernal.Buddy.Bits.{Aligned, Aligned-add, Aligned-mono, two_pow_suc, two_pow_mono}
use kernal.Buddy.Measure.{measure}
use kernal.Buddy.Valid.{IsValid}
use kernal.Buddy.Add.{
  measure-add, add-IsValid, guard-IsValid, guard-free_list, IsValid-IsValidBut, guarded-mem_map,
}
use kernal.Buddy.Cover.{Additive}

module _ (P : PageOps) where
  open P use {Page, page_buddy}

  -- The block that is kept and the blocks that go back make up the block that was taken.
  pub expand-measure :
      (g : ℕ → ℕ → ℕ) (page low n mt : ℕ) (z : Zone Page)
      → Additive g
      → mt < migrate_types
      → low + n < max_order
      → measure g (expand P page low n mt z).free_list + g low page
        ≡ measure g z.free_list + g (low + n) page
  unfolding expand
  expand-measure g page low zero mt z a lm ln = let e : low + 0 ≡ low = omega arith in rw e
  expand-measure g page low (suc n) mt z a lm ln =
      let e : low + suc n ≡ suc (low + n) = omega arith in
      let q = page + 2 ^ (low + n) in
      let added = __add_page_to_free_list P q (low + n) mt z in
      omega (
        arith,
        ap (λ k. g k page) e,
        a (low + n) page,
        measure-add P g z q (low + n) mt (omega arith) lm,
        ap (measure g) (guard-free_list P q (low + n) added),
        expand-measure g page low n mt (set_page_guard P q (low + n) added) a lm (omega arith),
      )

  -- The starts of the blocks that go back are in no list.
  abbrev pub NoneInside : ℕ → ℕ → ℕ → Zone Page → Type 0
  NoneInside page low n z = (i : ℕ) → i < n → page_buddy (z.mem_map (page + 2 ^ (low + i))) ≡ false

  pub expand-IsValid :
      (page low n mt : ℕ) (z : Zone Page)
      → mt < migrate_types
      → low + n < max_order
      → Aligned (low + n) page
      → page + 2 ^ (low + n) ≤ ulong_mod
      → NoneInside page low n z
      → IsValid P z
      → IsValid P (expand P page low n mt z)
  unfolding expand
  expand-IsValid page low zero mt z lm ln al top heads v = v
  expand-IsValid page low (suc n) mt z lm ln al top heads v =
      let e : low + suc n ≡ suc (low + n) = omega arith in
      let q = page + 2 ^ (low + n) in
      let double = ap (λ k. 2 ^ k) e ∙ two_pow_suc (low + n) in
      let out = IsValid-IsValidBut P q v (heads n (omega arith)) in
      let aligned = Aligned-add (low + n) (low + suc n) page (omega arith) al in
      let added = add-IsValid P q (low + n) mt (omega arith) lm aligned (omega arith) out in
      expand-IsValid page low n mt _ lm (omega arith)
        (Aligned-mono (low + n) (low + suc n) page (omega arith) al) (omega arith)
        (λ i l.
          ap page_buddy (guarded-mem_map P z q (low + n) mt (page + 2 ^ (low + i)) (below i l))
          ∙ heads i (omega arith))
        (guard-IsValid P q (low + n) mt z added)
    where
      below : (i : ℕ) → i < n → page + 2 ^ (low + i) ≢ page + 2 ^ (low + n)
      below i l =
          let less = two_pow_mono (suc (low + i)) (low + n) (omega arith) in
          omega (arith, two_pow_suc (low + i), one-le-pow (low + i) 2 (omega arith), less)

  -- Other pages keep their fields.
  pub expand-mem_map :
      (page low n mt : ℕ) (z : Zone Page) (x : ℕ)
      → x ≤ page
      → (expand P page low n mt z).mem_map x ≡ z.mem_map x
  unfolding expand
  expand-mem_map page low zero mt z x l = refl
  expand-mem_map page low (suc n) mt z x l =
      let q = page + 2 ^ (low + n) in
      let above : x ≢ q = omega (arith, one-le-pow (low + n) 2 (omega arith)) in
      expand-mem_map page low n mt _ x l ∙ guarded-mem_map P z q (low + n) mt x above
