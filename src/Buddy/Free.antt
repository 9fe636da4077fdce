-- ===== src/Buddy/Free.antt =====
-- kernel/mm/buddy.c: `__free_one_page` puts a block back, merged with its buddies.
use native.Mathlib.Nat.{one-le-pow}
use kernal.Prelude.{ℕ, suc, ◌+◌, ◌^◌, ◌≤◌, ◌<◌, ◌≡◌, true, false, ap, ◌∙◌, arith}
use kernal.Page.{PageOps}
use kernal.Buddy.{
  Zone, max_order, migrate_types, ulong_mod, page_is_buddy, __del_page_from_free_list,
  __add_page_to_free_list, set_page,
}
use kernal.Buddy.Bits.{Aligned, bit, clear, Aligned-clear, two_pow_suc}
use kernal.Buddy.Measure.{measure}
use kernal.Buddy.Valid.{IsValid, flagged_small}
use kernal.Buddy.Del.{measure-del, del-mem_map}
use kernal.Buddy.Add.{measure-add, add-IsValid, IsValid-set_page}
use kernal.Buddy.Cover.{Additive}

module _ (P : PageOps) where
  open P use {Page, page_buddy, page_order}

  pub is_buddy_flag :
      (p b : Page) (order : ℕ)
      → page_is_buddy P p b order ≡ true
      → (page_buddy b ≡ true) × (page_order b ≡ order)
  unfolding page_is_buddy
  is_buddy_flag p b order h = ground arith

  -- What a caller has after a block went back: the free blocks are those that there were, and it.
  pub record Freed (z z' : Zone Page) (page order : ℕ) : Type 0 where
    pub valid : IsValid P z'
    pub kept :
        (g : ℕ → ℕ → ℕ) → Additive g → measure g z'.free_list ≡ measure g z.free_list + g order page

  -- A block whose page is in no list and that lies in the range of frame numbers.
  pub record IsOut (z : Zone Page) (page order : ℕ) : Type 0 where
    pub off : page_buddy (z.mem_map page) ≡ false
    pub aligned : Aligned order page
    pub small : page + 2 ^ order ≤ ulong_mod

  module _ (mt : ℕ) (lm : mt < migrate_types) where
    pub done-Freed :
        (z : Zone Page) (page order : ℕ) (p : Page)
        → order < max_order
        → IsValid P z
        → IsOut z page order
        → Freed z (__add_page_to_free_list P page order mt (set_page page p z)) page order
    done-Freed z page order p lo v o = record {
      valid =
          add-IsValid P page order mt lo lm o.aligned o.small (IsValid-set_page P page p v o.off);
      kept = λ g _. measure-add P g (set_page page p z) page order mt lo lm;
    }

    pub merge-Freed :
        (z : Zone Page) (page order : ℕ) (z' : Zone Page)
        → order < max_order
        → IsValid P z
        → bit order page ≡ false
        → page_buddy (z.mem_map (page + 2 ^ order)) ≡ true
        → page_order (z.mem_map (page + 2 ^ order)) ≡ order
        → (d : ℕ)
        → Freed (__del_page_from_free_list P (page + 2 ^ order) order d z) z' page (order + 1)
        → Freed z z' page order
    merge-Freed z page order z' lo v unset flag at d f = record {
      valid = f.valid;
      kept = λ g a.
          let e : order + 1 ≡ suc order = omega arith in
          omega (
            arith,
            f.kept g a,
            a order page,
            ap (λ k. g k page) e,
            measure-del P (page + 2 ^ order) order d v flag at g,
          );
    }

    pub merged-IsOut :
        (z : Zone Page) (page order d : ℕ)
        → IsValid P z
        → IsOut z page order
        → bit order page ≡ false
        → page_buddy (z.mem_map (page + 2 ^ order)) ≡ true
        → page_order (z.mem_map (page + 2 ^ order)) ≡ order
        → IsOut (__del_page_from_free_list P (page + 2 ^ order) order d z) page (order + 1)
    merged-IsOut z page order d v o low flag at =
        let e : order + 1 ≡ suc order = omega arith in
        let pos = one-le-pow order 2 (omega arith) in
        let top = (flagged_small P z (page + 2 ^ order) v flag).2 in
        let same : clear order page ≡ page = rw low in
        record {
          off =
              ap page_buddy (del-mem_map P z (page + 2 ^ order) order d page (omega arith)) ∙ o.off;
          aligned = rw e (rw same at (Aligned-clear order page o.aligned));
          small = omega (arith, rw at at top, two_pow_suc order, ap (λ k. 2 ^ k) e);
        }
