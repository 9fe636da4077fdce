-- ===== src/Page/Flags.antt =====
-- kernel/include/mm.h: the flags of a page and the macros that test, set and clear them.
use kernal.Prelude.{
  ℕ, ◌≡◌, ◌≢◌, refl, ap, sym, ◌∙◌, Bool, true, false, Option, none, some, ◌==◌, if◌then◌else◌,
  ==_refl, arith,
}

-- `test_bit`, `set_bit` and `clear_bit` of a word, which no file defines.
pub record BitOps : Type 0 where
  pub test_bit : ℕ → ℕ → Bool
  pub set_bit : ℕ → ℕ → ℕ
  pub clear_bit : ℕ → ℕ → ℕ
  pub test-set : (b c w : ℕ) → test_bit b (set_bit c w) ≡ (if b == c then true else test_bit b w)
  pub test-clear :
      (b c w : ℕ) → test_bit b (clear_bit c w) ≡ (if b == c then false else test_bit b w)

-- The flags that have macros.
pub data PageFlag : Type 0 where
  pg_locked : PageFlag
  pg_error : PageFlag
  pg_referenced : PageFlag
  pg_uptodate : PageFlag
  pg_dirty : PageFlag
  pg_lru : PageFlag
  pg_active : PageFlag
  pg_slab : PageFlag
  pg_reserved : PageFlag
  pg_private : PageFlag
  pg_writeback : PageFlag
  pg_head : PageFlag
  pg_tail : PageFlag
  pg_compound : PageFlag
  pg_swapcache : PageFlag
  pg_mappedtodisk : PageFlag
  pg_reclaim : PageFlag
  pg_swapbacked : PageFlag
  pg_unevictable : PageFlag
  pg_mlocked : PageFlag
  pg_uncached : PageFlag
  pg_hwpoison : PageFlag
  pg_young : PageFlag
  pg_idle : PageFlag

-- The number of a flag.
abbrev pub bit_of : PageFlag → ℕ
bit_of pg_locked = 0
bit_of pg_error = 1
bit_of pg_referenced = 2
bit_of pg_uptodate = 3
bit_of pg_dirty = 4
bit_of pg_lru = 5
bit_of pg_active = 6
bit_of pg_slab = 7
bit_of pg_reserved = 10
bit_of pg_private = 11
bit_of pg_writeback = 13
bit_of pg_head = 14
bit_of pg_tail = 15
bit_of pg_compound = 16
bit_of pg_swapcache = 17
bit_of pg_mappedtodisk = 18
bit_of pg_reclaim = 19
bit_of pg_swapbacked = 20
bit_of pg_unevictable = 21
bit_of pg_mlocked = 22
bit_of pg_uncached = 23
bit_of pg_hwpoison = 24
bit_of pg_young = 25
bit_of pg_idle = 26

module _ (B : BitOps) where
  open B use {test_bit, set_bit, clear_bit}

  -- PageLocked to PageIdle, on the flags of the page
  abbrev pub page_flag : PageFlag → ℕ → Bool
  page_flag f flags = test_bit (bit_of f) flags

  -- SetPageLocked to SetPageIdle
  abbrev pub set_page_flag : PageFlag → ℕ → ℕ
  set_page_flag f flags = set_bit (bit_of f) flags

  -- ClearPageLocked to ClearPageIdle
  abbrev pub clear_page_flag : PageFlag → ℕ → ℕ
  clear_page_flag f flags = clear_bit (bit_of f) flags

-- No two flags have one number.
abbrev flag_at : ℕ → Option PageFlag
flag_at b =
    if b == 0
    then some pg_locked
    else if b == 1
    then some pg_error
    else if b == 2
    then some pg_referenced
    else if b == 3
    then some pg_uptodate
    else if b == 4
    then some pg_dirty
    else if b == 5
    then some pg_lru
    else if b == 6
    then some pg_active
    else if b == 7
    then some pg_slab
    else if b == 10
    then some pg_reserved
    else if b == 11
    then some pg_private
    else if b == 13
    then some pg_writeback
    else if b == 14
    then some pg_head
    else if b == 15
    then some pg_tail
    else if b == 16
    then some pg_compound
    else if b == 17
    then some pg_swapcache
    else if b == 18
    then some pg_mappedtodisk
    else if b == 19
    then some pg_reclaim
    else if b == 20
    then some pg_swapbacked
    else if b == 21
    then some pg_unevictable
    else if b == 22
    then some pg_mlocked
    else if b == 23
    then some pg_uncached
    else if b == 24
    then some pg_hwpoison
    else if b == 25
    then some pg_young
    else if b == 26
    then some pg_idle
    else none

flag_at-bit_of : (f : PageFlag) → flag_at (bit_of f) ≡ some f
flag_at-bit_of pg_locked = refl
flag_at-bit_of pg_error = refl
flag_at-bit_of pg_referenced = refl
flag_at-bit_of pg_uptodate = refl
flag_at-bit_of pg_dirty = refl
flag_at-bit_of pg_lru = refl
flag_at-bit_of pg_active = refl
flag_at-bit_of pg_slab = refl
flag_at-bit_of pg_reserved = refl
flag_at-bit_of pg_private = refl
flag_at-bit_of pg_writeback = refl
flag_at-bit_of pg_head = refl
flag_at-bit_of pg_tail = refl
flag_at-bit_of pg_compound = refl
flag_at-bit_of pg_swapcache = refl
flag_at-bit_of pg_mappedtodisk = refl
flag_at-bit_of pg_reclaim = refl
flag_at-bit_of pg_swapbacked = refl
flag_at-bit_of pg_unevictable = refl
flag_at-bit_of pg_mlocked = refl
flag_at-bit_of pg_uncached = refl
flag_at-bit_of pg_hwpoison = refl
flag_at-bit_of pg_young = refl
flag_at-bit_of pg_idle = refl

pub bit_of-injective : (f g : PageFlag) → bit_of f ≡ bit_of g → f ≡ g
bit_of-injective f g e =
    let same : some f ≡ some g = sym (flag_at-bit_of f) ∙ ap flag_at e ∙ flag_at-bit_of g in cc

module _ (B : BitOps) where
  open B use {test-set, test-clear}

  -- A write to one flag of a page is read back at that flag, and at every other flag the page reads
  -- as before.
  pub set-clear_page_flag :
      (f : PageFlag) (flags : ℕ)
      → (page_flag B f (set_page_flag B f flags) ≡ true)
        × (page_flag B f (clear_page_flag B f flags) ≡ false)
        × ((g : PageFlag)
            → g ≢ f
            → (page_flag B g (set_page_flag B f flags) ≡ page_flag B g flags)
              × (page_flag B g (clear_page_flag B f flags) ≡ page_flag B g flags))
  set-clear_page_flag f flags = (
    test-set (bit_of f) (bit_of f) flags ∙ rw (==_refl (bit_of f)) refl,
    test-clear (bit_of f) (bit_of f) flags ∙ rw (==_refl (bit_of f)) refl,
    λ g ne.
        let differ : bit_of g ≢ bit_of f = λ e. ne (bit_of-injective g f e) in
        let test : (bit_of g == bit_of f) ≡ false = ground arith in
        (
          test-set (bit_of g) (bit_of f) flags ∙ rw test refl,
          test-clear (bit_of g) (bit_of f) flags ∙ rw test refl,
        ),
  )
