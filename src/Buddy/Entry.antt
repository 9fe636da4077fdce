-- ===== src/Buddy/Entry.antt =====
-- kernel/mm/buddy.c: the entry points that answer an address, an `ulong`.
use Prim.Native.Nat.{bit_or}
use kernal.Prelude.{
  ℕ, ◌%◌, ◌≤◌, ◌<◌, ◌≡◌, ◌≢◌, refl, ap, ◌⊎◌, inl, inr, Bool, false, Option, some, ◌==◌, arith,
}
use native.Mathlib.Decide.{ℕ_discrete, dec_lt}
use kernal.Page.{PageOps, FrameOps}
use kernal.Buddy.{Zone, ulong_mod}
use kernal.Buddy.Fallback.{Found, found, nothing, out_of_range}
use kernal.Buddy.Request.{Memory, PerCpuPages, gfp_zero, alloc_pages}
use kernal.Buddy.Release.{__free_pages, free_pages}

-- The value that is returned, or the read out of range of the search.
pub data Address (M : Type 0) : Type 0 where
  address : ℕ → M → Address M
  reads_out : Address M

module _ (P : PageOps) (F : FrameOps P) (zone_end_pfn : Zone P.Page → ℕ) (migratetype : ℕ → ℕ)
    (has_zone : ℕ → Bool) where
  open P use {Page}

  unfoldable pub alloc_page : ℕ → Memory Page → Found (Memory Page)
  unfolding alloc_pages
  alloc_page gfp_mask m = alloc_pages P F zone_end_pfn migratetype has_zone gfp_mask 0 m

  -- `page_address` and `virt_to_page`, which no file defines, are between a page and its address.
  module _ (page_address : ℕ → ℕ) where
    -- The cast of a pointer of 64 bits to an `ulong`.
    abbrev pub addressed : Memory Page → Found (Memory Page) → Address (Memory Page)
    addressed m (found page m') = address (page_address page % ulong_mod) m'
    addressed m nothing = address 0 m
    addressed m out_of_range = reads_out

    unfoldable pub __get_free_pages : ℕ → ℕ → Memory Page → Address (Memory Page)
    unfolding alloc_pages
    __get_free_pages gfp_mask order m =
        addressed m (alloc_pages P F zone_end_pfn migratetype has_zone gfp_mask order m)

    unfoldable pub __get_free_page : ℕ → Memory Page → Address (Memory Page)
    unfolding __get_free_pages
    __get_free_page gfp_mask m = __get_free_pages gfp_mask 0 m

    unfoldable pub get_zeroed_page : ℕ → Memory Page → Address (Memory Page)
    unfolding __get_free_pages
    get_zeroed_page gfp_mask m = __get_free_pages (bit_or gfp_mask gfp_zero) 0 m

    module _ (virt_to_page : ℕ → ℕ)
        (bulk : ℕ → Zone Page × PerCpuPages → Zone Page × PerCpuPages) where
      unfoldable pub free_page : ℕ → Memory Page → Option (Memory Page)
      unfolding free_pages
      free_page addr m = free_pages P F bulk virt_to_page addr 0 m

      -- What the caller can do with the address of a block that was found.
      abbrev pub Addressed : ℕ → ℕ → Memory Page → Address (Memory Page) → Type 0
      Addressed page order m' a =
          ((page_address page < ulong_mod)
            × (page_address page ≢ 0)
            × (a ≡ address (page_address page) m')
            × (free_pages P F bulk virt_to_page (page_address page) order m'
                ≡ __free_pages P F bulk page order m'))
          ⊎ (((page_address page % ulong_mod ≡ 0)
                × (a ≡ address 0 m')
                × (free_pages P F bulk virt_to_page 0 order m' ≡ some m'))
              ⊎ ((ulong_mod ≤ page_address page)
                  × (page_address page % ulong_mod ≢ 0)
                  × (a ≡ address (page_address page % ulong_mod) m')
                  × (page_address page % ulong_mod ≢ page_address page)))

      -- Where alloc_pages finds a block, and virt_to_page takes the address of its page back to
      -- it: if the address is below the range of an ulong and not 0, __get_free_pages answers it
      -- and free_pages of it frees the block. If the address modulo 2^32 is 0, the caller has 0,
      -- as if there were no page, of which free_pages frees nothing. Otherwise the address is not
      -- below 2^32, and the caller has it modulo 2^32, which is another address.
      pub __get_free_pages-Addressed :
          (gfp_mask order page : ℕ) (m m' : Memory Page)
          → virt_to_page (page_address page) ≡ page
          → alloc_pages P F zone_end_pfn migratetype has_zone gfp_mask order m ≡ found page m'
          → Addressed page order m' (__get_free_pages gfp_mask order m)
      unfolding __get_free_pages free_pages
      __get_free_pages-Addressed gfp order page m m' back e =
          let x = page_address page in
          elim (dec_lt x ulong_mod) [
            | yes l ↦ elim (ℕ_discrete x 0) [
              | yes z ↦ inr (inl (rw z refl, rw e (ap (λ t. address (t % ulong_mod) m') z), refl))
              | no nz ↦
                  let same : x % ulong_mod ≡ x = omega (arith, l) in
                  let test : (x == 0) ≡ false = ground arith in
                  inl (l, nz, rw e (ap (λ t. address t m') same), rw (test, back) refl)
            ]
            | no l ↦ elim (ℕ_discrete (x % ulong_mod) 0) [
              | yes z ↦ inr (inl (z, rw e (ap (λ t. address t m') z), refl))
              | no nz ↦ inr (inr (omega (arith, l), nz, rw e refl, λ q. l (omega (arith, q))))
            ]
          ]
