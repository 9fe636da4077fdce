-- ===== src/Buddy/Samples.antt =====
-- kernel/mm/buddy.c: a zone with one free block.
use kernal.Prelude.{◌+◌, ℕ, ◌%◌, ◌^◌, ◌≤◌, refl, Bool, true, false, [], arith, ◌==◌, if◌then◌else◌}
use kernal.Prelude.Int.{pos}
use kernal.Page.{PageOps, FrameOps}
use kernal.Buddy.Request.{Memory}
use kernal.Buddy.{Zone, __add_page_to_free_list}
use kernal.Buddy.Measure.{weigh, is, measure-empty}
use kernal.Buddy.Valid.{IsValid}
use kernal.Buddy.Add.{add-IsValid, measure-add, IsValid-IsValidBut}
use kernal.Buddy.Cover.{covers, IsApart}

-- A page with the fields that the accessors read.
pub record Frame : Type 0 where
  pub buddy : Bool
  pub private_ : ℕ
  pub zone_id : ℕ
  pub migratetype : ℕ
  pub guard : Bool

abbrev pub frames : PageOps
frames = record {
  Page = Frame;
  page_buddy = λ p. p.buddy;
  __set_page_buddy = λ p. record p { buddy = true };
  __clear_page_buddy = λ p. record p { buddy = false };
  page_order = λ p. p.private_;
  set_page_private = λ p v. record p { private_ = v };
  set_page_order = λ p v. record p { private_ = v; buddy = true };
  page_zone_id = λ p. p.zone_id;
  get_freepage_migratetype = λ p. p.migratetype % 6;
  set_freepage_migratetype = λ p m. record p { migratetype = m };
  __set_page_guard = λ p. record p { guard = true };
  pfn_valid_within = λ _. true;
  pageblock_order = 9;
  debug_guardpage_minorder = 11;
  buddy-set = λ p. refl;
  buddy-clear = λ p. refl;
  buddy-private = λ p v. refl;
  buddy-migratetype = λ p m. refl;
  buddy-guard = λ p. refl;
  order-private = λ p v. refl;
}

abbrev pub empty_zone : Zone Frame
empty_zone = record {
  free_list = λ _ _. [];
  nr_free = λ _. 0;
  free_pages = 0;
  zone_start_pfn = 0;
  spanned_pages = 1024;
  mem_map =
      λ _. record { buddy = false; private_ = 0; zone_id = 0; migratetype = 0; guard = false };
}

pub empty_zone-IsValid : IsValid frames empty_zone
empty_zone-IsValid = record {
  flags = λ q. measure-empty (λ _. is q);
  entry = λ q o m l k c. absurd (unfold weigh in omega arith);
  counted = record {
    areas = λ o. omega (arith, measure-empty (λ o' _. if o' == o then 1 else 0));
    pages = omega (arith, measure-empty (λ o _. 2 ^ o));
  };
}

-- A block of 8 pages at frame 8, for migrate type 0.
abbrev pub one_block : Zone Frame
one_block = __add_page_to_free_list frames 8 3 0 empty_zone

pub one_block-IsValid : IsValid frames one_block
one_block-IsValid =
    add-IsValid frames 8 3 0 (omega arith) (omega arith) (omega arith) (omega arith)
      (IsValid-IsValidBut frames 8 empty_zone-IsValid refl)

pub one_block-IsApart : IsApart one_block
one_block-IsApart p =
    let added = measure-add frames (covers p) empty_zone 8 3 0 (omega arith) (omega arith) in
    let small : covers p 3 8 ≤ 1 = ground arith in omega (arith, added, measure-empty (covers p))

abbrev pub zone_end : Zone Frame → ℕ
zone_end z = z.zone_start_pfn + z.spanned_pages

-- Pages with no flags, no mapping and no references.
abbrev pub plain : FrameOps frames
plain = record {
  flags = λ p. 0;
  set_flags = λ p v. p;
  set_page_count = λ p v. p;
  clear_page = λ p. p;
  init_page_waiters = λ p. p;
  set_page_zone = λ p. record p { zone_id = 1 };
  set_page_node = λ p. p;
  page_anon = λ p. false;
  clear_mapping = λ p. p;
  has_mapping = λ p. false;
  page_mapcount = λ p. 0;
  page_ref_count = λ p. 0;
  put_page = λ p. p;
  page_cpupid_reset_last = λ p. p;
  page_flags_check_at_free = 1;
  page_flags_check_at_prep = 1;
  buddy-flags = λ p v. refl;
  buddy-count = λ p v. refl;
  buddy-cleared = λ p. refl;
  buddy-waiters = λ p. refl;
  buddy-zone = λ p. refl;
  buddy-node = λ p. refl;
  buddy-mapping = λ p. refl;
  buddy-put = λ p. refl;
  buddy-cpupid = λ p. refl;
}

abbrev pub memory : Memory Frame
memory = record {
  zone = one_block;
  total_pages = 1024;
  free_pages = 0;
  pcp = record { count = pos 0; high = pos 6; batch = 2; lists = λ _. [] };
}
