-- ===== src/Page.antt =====
-- The page accessors that kernel/mm/buddy.c uses and the repository does not define: an interface
-- with what the allocator relies on, which is that each accessor reads what its setter wrote.
pub mod Flags
use kernal.Prelude.{ℕ, ◌≡◌, Bool, true, false}

pub record PageOps : Type 1 where
  pub Page : Type 0
  pub page_buddy : Page → Bool  -- PageBuddy
  pub __set_page_buddy : Page → Page
  pub __clear_page_buddy : Page → Page
  pub page_order : Page → ℕ
  pub set_page_private : Page → ℕ → Page
  pub set_page_order : Page → ℕ → Page
  pub page_zone_id : Page → ℕ
  pub get_freepage_migratetype : Page → ℕ
  pub set_freepage_migratetype : Page → ℕ → Page
  pub __set_page_guard : Page → Page
  pub pfn_valid_within : ℕ → Bool
  pub pageblock_order : ℕ
  pub debug_guardpage_minorder : ℕ
  pub buddy-set : (p : Page) → page_buddy (__set_page_buddy p) ≡ true
  pub buddy-clear : (p : Page) → page_buddy (__clear_page_buddy p) ≡ false
  pub buddy-private : (p : Page) (v : ℕ) → page_buddy (set_page_private p v) ≡ page_buddy p
  pub buddy-migratetype :
      (p : Page) (m : ℕ) → page_buddy (set_freepage_migratetype p m) ≡ page_buddy p
  pub buddy-guard : (p : Page) → page_buddy (__set_page_guard p) ≡ page_buddy p
  pub order-private : (p : Page) (v : ℕ) → page_order (set_page_private p v) ≡ v

-- What the allocator does to a page that it hands out or takes back, and what it asks of it. None of
-- these changes PageBuddy.
pub record FrameOps (P : PageOps) : Type 0 where
  pub flags : P.Page → ℕ
  pub set_flags : P.Page → ℕ → P.Page
  pub set_page_count : P.Page → ℕ → P.Page
  pub clear_page : P.Page → P.Page
  pub init_page_waiters : P.Page → P.Page
  pub set_page_zone : P.Page → P.Page
  pub set_page_node : P.Page → P.Page
  pub page_anon : P.Page → Bool
  pub clear_mapping : P.Page → P.Page  -- mapping = NULL
  pub has_mapping : P.Page → Bool  -- mapping != NULL
  pub page_mapcount : P.Page → ℕ
  pub page_ref_count : P.Page → ℕ
  pub put_page : P.Page → P.Page  -- the write of put_page_testzero
  pub page_cpupid_reset_last : P.Page → P.Page
  pub page_flags_check_at_free : ℕ
  pub page_flags_check_at_prep : ℕ
  pub buddy-flags : (p : P.Page) (v : ℕ) → P.page_buddy (set_flags p v) ≡ P.page_buddy p
  pub buddy-count : (p : P.Page) (v : ℕ) → P.page_buddy (set_page_count p v) ≡ P.page_buddy p
  pub buddy-cleared : (p : P.Page) → P.page_buddy (clear_page p) ≡ P.page_buddy p
  pub buddy-waiters : (p : P.Page) → P.page_buddy (init_page_waiters p) ≡ P.page_buddy p
  pub buddy-zone : (p : P.Page) → P.page_buddy (set_page_zone p) ≡ P.page_buddy p
  pub buddy-node : (p : P.Page) → P.page_buddy (set_page_node p) ≡ P.page_buddy p
  pub buddy-mapping : (p : P.Page) → P.page_buddy (clear_mapping p) ≡ P.page_buddy p
  pub buddy-put : (p : P.Page) → P.page_buddy (put_page p) ≡ P.page_buddy p
  pub buddy-cpupid : (p : P.Page) → P.page_buddy (page_cpupid_reset_last p) ≡ P.page_buddy p
