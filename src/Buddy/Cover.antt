-- ===== src/Buddy/Cover.antt =====
-- kernel/mm/buddy.c: which page frames the free blocks cover, and that no two blocks overlap.
use kernal.Prelude.{
  ℕ, suc, ◌+◌, ◌^◌, ◌≤◌, ◌<◌, ◌≡◌, ◌≢◌, true, false, ◌&&◌, inl, inr, ap, ◌∙◌, refl, arith, leb, ltb,
  Bool-cases, if◌then◌else◌,
}
use native.Mathlib.Nat.{one-le-pow}
use kernal.Page.{PageOps}
use kernal.Buddy.{Zone, max_order, __del_page_from_free_list}
use kernal.Buddy.Bits.{two_pow_suc}
use kernal.Buddy.Measure.{measure}
use kernal.Buddy.Valid.{IsValid}
use kernal.Buddy.Del.{measure-del, del-IsValid, del-mem_map}

-- 1 where the block of order `o` at `x` covers the frame `p`.
abbrev pub covers : ℕ → ℕ → ℕ → ℕ
covers p o x = if leb x p && ltb p (x + 2 ^ o) then 1 else 0

-- A weight of blocks that a split into two halves keeps.
abbrev pub Additive : (ℕ → ℕ → ℕ) → Type 0
Additive g = (o x : ℕ) → g (suc o) x ≡ g o x + g o (x + 2 ^ o)

pub covers-Additive : (p : ℕ) → Additive (covers p)
covers-Additive p o x = ground (arith, two_pow_suc o)

pub size-Additive : Additive (λ o _. 2 ^ o)
size-Additive o x = omega (arith, two_pow_suc o)

pub covers_self : (q o : ℕ) → covers q o q ≡ 1
covers_self q o = ground (arith, one-le-pow o 2 (omega arith))

-- No frame is in two free blocks.
abbrev pub IsApart : {A : Type 0} → Zone A → Type 0
IsApart z = (p : ℕ) → measure (covers p) z.free_list ≤ 1

module _ (P : PageOps) where
  open P use {Page, page_buddy, page_order}

  -- The first page of a free block is covered.
  pub covers-listed :
      (z : Zone Page) (q p : ℕ)
      → IsValid P z
      → page_buddy (z.mem_map q) ≡ true
      → covers p (page_order (z.mem_map q)) q ≤ measure (covers p) z.free_list
  covers-listed z q p v flag =
      omega (arith, measure-del P q (page_order (z.mem_map q)) 0 v flag refl (covers p))

  -- A free block of order `o` has no other free block's first page in it.
  pub inside_not_buddy :
      (z : Zone Page) (q o x : ℕ)
      → IsValid P z
      → IsApart z
      → o < max_order
      → page_buddy (z.mem_map q) ≡ true
      → page_order (z.mem_map q) ≡ o
      → x ≢ q
      → covers x o q ≡ 1
      → page_buddy (z.mem_map x) ≡ false
  inside_not_buddy z q o x v apart lo flag order ne inside =
      elim (Bool-cases (page_buddy (z.mem_map x))) [
        | inl on ↦
            let v' = del-IsValid P q o 0 v flag order lo in
            let same = del-mem_map P z q o 0 x ne in
            let whole = measure-del P q o 0 v flag order (covers x) in
            let rest =
              covers-listed (__del_page_from_free_list P q o 0 z) x x v'
                (ap page_buddy same ∙ on) in
            absurd (
              omega (
                arith,
                apart x,
                covers_self x (page_order ((__del_page_from_free_list P q o 0 z).mem_map x)),
              ))
        | inr off ↦ off
      ]
