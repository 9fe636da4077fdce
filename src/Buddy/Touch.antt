-- ===== src/Buddy/Touch.antt =====
-- kernel/mm/buddy.c: writes to pages that are in no list, which change neither the lists nor a flag.
use native.Mathlib.Decide.{ℕ_discrete}
use kernal.Prelude.{ℕ, ◌≡◌, refl, sym, ◌∙◌, false, ◌==◌, arith, ==_refl}
use kernal.Page.{PageOps}
use kernal.Buddy.{Zone, set_page}
use kernal.Buddy.Valid.{IsValid}
use kernal.Buddy.Add.{IsValid-touch}

module _ (P : PageOps) where
  open P use {Page, page_buddy}

  pub record Touched (z z' : Zone Page) : Type 0 where
    pub valid : IsValid P z'
    pub lists : z'.free_list ≡ z.free_list
    pub flag : (x : ℕ) → page_buddy (z'.mem_map x) ≡ page_buddy (z.mem_map x)

  pub Touched-none : (z : Zone Page) → IsValid P z → Touched z z
  Touched-none z v = record { valid = v; lists = refl; flag = λ x. refl }

  pub Touched-trans : (z z' z'' : Zone Page) → Touched z z' → Touched z' z'' → Touched z z''
  Touched-trans z z' z'' t u = record {
    valid = u.valid;
    lists = u.lists ∙ t.lists;
    flag = λ x. u.flag x ∙ t.flag x;
  }

  pub set_page-Touched :
      (z : Zone Page) (q : ℕ) (p : Page)
      → IsValid P z
      → page_buddy (z.mem_map q) ≡ false
      → page_buddy p ≡ page_buddy (z.mem_map q)
      → Touched z (set_page q p z)
  set_page-Touched z q p v off same = record {
    valid = IsValid-touch P q p v same (λ on. cc (sym (same ∙ off) ∙ on));
    lists = refl;
    flag = λ x. elim (ℕ_discrete x q) [
      | yes e ↦ rw (e, ==_refl q) same
      | no ne ↦ let other : (x == q) ≡ false = ground arith in rw other
    ];
  }
