-- ===== src/Buddy/EntryTests.antt =====
-- kernel/mm/buddy.c: a zone that is initialised, an order, and an address that is cut to nothing.
use kernal.Prelude.{ℕ, ◌+◌, ◌*◌, ◌/◌, ◌%◌, ◌^◌, ◌≤◌, ◌≡◌, refl, true, none, some, [], ◌∷◌, arith}
use kernal.Prelude.Int.{pos}
use kernal.Buddy.{__add_page_to_free_list, smallest_loop, __rmqueue_smallest}
use kernal.Buddy.Fallback.{Found, found, nothing, out_of_range}
use kernal.Buddy.Request.{Memory, rmqueue, alloc_pages}
use kernal.Buddy.Order.{get_order, get_order-least}
use kernal.Buddy.Init.{Zones, init_zone}
use kernal.Buddy.Ready.{Initialised, init_zone-Initialised}
use kernal.Buddy.Entry.{Addressed, __get_free_pages, __get_free_pages-Addressed}
use kernal.Buddy.Samples.{Frame, frames, empty_zone, zone_end, plain, memory}

-- A size of 3 pages and a byte.
get_order-least_example :
    (k : ℕ) × (get_order 12289 ≡ some k)
    × (12289 ≤ 4096 * 2 ^ k)
    × ((j : ℕ) → 12289 ≤ 4096 * 2 ^ j → k ≤ j)
get_order-least_example = get_order-least 12289 (omega arith) (omega arith)

-- Zones with leftovers in their lists, and a table of four places with one zone.
abbrev leftovers : Zones Frame
leftovers = record {
  zone = λ p. record {
    area = record empty_zone { free_list = λ o m. 7 ∷ []; free_pages = 9 };
    present_pages = 1;
    managed_pages = 1;
    lock = record { lock = 1; owner_cpu = 0; owner = 0; magic = 0 };
    lru_lock = record { lock = 1; owner_cpu = 0; owner = 0; magic = 0 };
    watermark = λ i. 0;
    pages_scanned = 1;
    lists = λ i. 5 ∷ [];
    compact = record {
      cached_free_pfn = 0;
      cached_migrate_pfn = λ i. 0;
      init_migrate_pfn = 0;
      init_free_pfn = 0;
      considered = 1;
      defer_shift = 1;
      order_failed = pos 0;
    };
    wait = record { wait_table = some 1; wait_table_hash_nr_entries = 1; wait_table_bits = 1 };
  };
  zones = some 8 ∷ none ∷ none ∷ none ∷ [];
  nr_zones = 1;
}

init_zone-Initialised_example :
    Initialised frames (some 9) leftovers (init_zone (some 9) 0 1024 leftovers)
init_zone-Initialised_example =
    init_zone-Initialised frames (some 9) 0 1024 leftovers refl (λ p q. refl) (λ p o l. refl)

-- The address of a page in the upper half of the 64 bits.
abbrev high : ℕ → ℕ
high page = 0xFFFF800000000000 + page * 2 ^ 32

abbrev page_of : ℕ → ℕ
page_of addr = addr % 2 ^ 47 / 2 ^ 32

abbrev memory_of : Found (Memory Frame) → Memory Frame
memory_of (found page m) = m
memory_of nothing = memory
memory_of out_of_range = memory

abbrev answer : Found (Memory Frame)
answer = alloc_pages frames plain zone_end (λ _. 0) (λ _. true) 0 3 memory

answered : answer ≡ found 8 (memory_of answer)
unfolding alloc_pages rmqueue __rmqueue_smallest smallest_loop __add_page_to_free_list
answered = refl

__get_free_pages-Addressed_example :
    Addressed frames plain zone_end
      (λ _. 0)
      (λ _. true)
      high
      page_of
      (λ _ r. r)
      8
      3
      (memory_of answer)
      (__get_free_pages frames plain zone_end (λ _. 0) (λ _. true) high 0 3 memory)
__get_free_pages-Addressed_example =
    __get_free_pages-Addressed frames plain zone_end (λ _. 0) (λ _. true) high page_of (λ _ r. r) 0
      3 8 memory (memory_of answer) refl answered
