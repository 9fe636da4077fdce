-- ===== src/Buddy/RequestTests.antt =====
-- kernel/mm/buddy.c: requests and releases at a zone with one free block.
use kernal.Prelude.{
  ℕ, ◌+◌, ◌^◌, ◌≤◌, ◌<◌, ◌≡◌, ◌∷◌, refl, true, false, none, some, [], arith, Option, List,
}
use kernal.Prelude.Int.{◌+ℤ◌}
use kernal.Buddy.{__add_page_to_free_list, take_page}
use kernal.Buddy.Fallback.{found, nothing, out_of_range, take_fallback, __rmqueue_fallback}
use kernal.Buddy.Steal.{take_fallback-take_page}
use kernal.Buddy.Search.{FallbackAnswer, __rmqueue_fallback-Answer}
use kernal.Buddy.Request.{Memory, alloc_pages}
use kernal.Buddy.Prep.{Allocated, alloc_pages-Allocated}
use kernal.Buddy.Free.{IsOut}
use kernal.Buddy.Release.{free_page_prepare, __free_pages_ok, free_hot_cold_page}
use kernal.Buddy.Checked.{Released, __free_pages_ok-Released}
use kernal.Buddy.Samples.{
  Frame, frames, empty_zone, one_block, one_block-IsValid, one_block-IsApart, zone_end, plain,
  memory,
}

-- The block is of type 0; a request of type 1 takes it by the other search.
taken_by_fallback :
    __rmqueue_fallback frames zone_end 1 1 one_block
    ≡ found 8 (take_fallback frames zone_end 8 1 2 0 true 1 one_block)
unfolding __rmqueue_fallback __add_page_to_free_list
taken_by_fallback = refl

-- With no block at all the search for one page reads out of the array, and that for two ends.
no_page : __rmqueue_fallback frames zone_end 0 1 empty_zone ≡ out_of_range
unfolding __rmqueue_fallback
no_page = refl

no_pages : __rmqueue_fallback frames zone_end 1 1 empty_zone ≡ nothing
unfolding __rmqueue_fallback
no_pages = refl

take_fallback-take_page_example :
    take_fallback frames zone_end 8 1 2 0 true 1 one_block ≡ take_page frames 8 1 2 0 1 one_block
take_fallback-take_page_example =
    take_fallback-take_page frames zone_end 8 1 2 0 true 1 one_block (omega arith)

__rmqueue_fallback-Answer_example :
    FallbackAnswer frames one_block 1 1 (__rmqueue_fallback frames zone_end 1 1 one_block)
__rmqueue_fallback-Answer_example =
    __rmqueue_fallback-Answer frames zone_end one_block 1 1 one_block-IsValid one_block-IsApart
      (omega arith) (omega arith) (omega arith)

alloc_pages-Allocated_example :
    Allocated frames plain memory 1 1
      (alloc_pages frames plain zone_end (λ _. 1) (λ _. true) 0 1 memory)
alloc_pages-Allocated_example =
    alloc_pages-Allocated frames plain zone_end (λ _. 1) (λ _. true) memory 1 0 one_block-IsValid
      one_block-IsApart (omega arith) (omega arith) (omega arith) refl

block-IsOut : IsOut frames one_block 16 3
unfolding __add_page_to_free_list
block-IsOut = record { off = refl; aligned = omega arith; small = omega arith }

out_flags : (y : ℕ) → 16 ≤ y → y < 16 + 2 ^ 3 → frames.page_buddy (one_block.mem_map y) ≡ false
unfolding __add_page_to_free_list
out_flags y lo hi = ground arith

__free_pages_ok-Released_example :
    Released frames plain one_block
      (free_page_prepare frames plain 16 3 one_block).1
      (__free_pages_ok frames plain 16 3 one_block)
      16
      3
__free_pages_ok-Released_example =
    __free_pages_ok-Released frames plain one_block 16 3 one_block-IsValid block-IsOut out_flags
      (omega arith) (λ p. omega arith)

abbrev pages_kept : Option (Memory Frame) → Option (List ℕ)
pages_kept none = none
pages_kept (some m) = some (m.pcp.lists 0)

-- A page of one frame goes to the list of the CPU, of the type that it has.
kept_by_cpu :
    pages_kept (free_hot_cold_page frames plain (λ batch r. r) 20 false memory) ≡ some (20 ∷ [])
unfolding free_hot_cold_page __add_page_to_free_list ◌+ℤ◌
kept_by_cpu = refl
