-- ===== src/Buddy/Tests.antt =====
-- kernel/mm/buddy.c: the theorems at a zone with one free block.
use kernal.Prelude.{ℕ, ◌+◌, ◌%◌, ◌-◌, ◌^◌, ◌≡◌, refl, none, some, arith, Option}
use kernal.Buddy.{
  Zone, ulong_mod, __add_page_to_free_list, __rmqueue_smallest, __free_one_page, smallest_loop,
  free_loop, expand, set_page_guard, __del_page_from_free_list, page_is_buddy, page_offset,
  __find_buddy_pfn,
}
use kernal.Buddy.Measure.{measure}
use kernal.Buddy.Cover.{covers, IsApart}
use kernal.Buddy.Alloc.{Answer, __rmqueue_smallest-Answer}
use kernal.Buddy.Free.{IsOut}
use kernal.Buddy.Merge.{Ends}
use kernal.Buddy.Round.{
  Covered, Restored, __free_one_page-covers, __rmqueue_smallest-covers, rmqueue-free,
}
use kernal.Buddy.Samples.{Frame, frames, one_block, one_block-IsValid, one_block-IsApart}

-- A request for 2 pages splits the block.
abbrev answer : Option ℕ × Zone Frame
answer = __rmqueue_smallest frames 1 0 one_block

split : answer.0 ≡ some 8
unfolding __rmqueue_smallest __add_page_to_free_list smallest_loop
split = refl

got : answer ≡ (some 8, answer.1)
got = λ i. (split i, answer.1)

__rmqueue_smallest-Answer_example : Answer frames one_block 1 0 answer
__rmqueue_smallest-Answer_example =
    __rmqueue_smallest-Answer frames one_block 0 1 one_block-IsValid one_block-IsApart (omega arith)
      (omega arith)

__rmqueue_smallest-covers_example :
    ((p : ℕ)
      → measure (covers p) one_block.free_list
        ≡ measure (covers p) answer.1.free_list + covers p 1 8)
    × IsApart answer.1
    × (answer.1.free_pages ≡ (one_block.free_pages + ulong_mod - 2 ^ 1) % ulong_mod)
__rmqueue_smallest-covers_example =
    __rmqueue_smallest-covers frames one_block 0 1 one_block-IsValid one_block-IsApart (omega arith)
      (omega arith) got

-- The pair at 8 merges to the block of 8 frames, whose buddy lies below.
rmqueue-free_example :
    Ends frames (Restored frames one_block) answer.1 8 1 (__free_one_page frames 8 8 1 2 answer.1)
rmqueue-free_example =
    rmqueue-free frames one_block 0 1 one_block-IsValid one_block-IsApart (omega arith)
      (omega arith) got 2 (omega arith)

wild_read : __free_one_page frames 8 8 1 2 answer.1 ≡ none
unfolding __rmqueue_smallest smallest_loop __free_one_page free_loop page_is_buddy page_offset
    __find_buddy_pfn __add_page_to_free_list expand set_page_guard __del_page_from_free_list
wild_read = refl

-- The block at 0 of four frames is put back, where the one above is not free.
low-IsOut : IsOut frames one_block 0 2
unfolding __add_page_to_free_list
low-IsOut = record { off = refl; aligned = omega arith; small = omega arith }

__free_one_page-covers_example :
    Ends frames
      (Covered frames one_block 0 2)
      one_block
      0
      2
      (__free_one_page frames 0 0 2 0 one_block)
__free_one_page-covers_example =
    __free_one_page-covers frames 0 one_block 0 2 (omega arith) (omega arith) one_block-IsValid
      low-IsOut

abbrev free_pages_of : Option (Zone Frame) → Option ℕ
free_pages_of none = none
free_pages_of (some z) = some z.free_pages

kept_apart : free_pages_of (__free_one_page frames 0 0 2 0 one_block) ≡ some 12
unfolding __free_one_page free_loop page_is_buddy page_offset __find_buddy_pfn
    __add_page_to_free_list
kept_apart = refl
