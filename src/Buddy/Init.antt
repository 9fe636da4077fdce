-- ===== src/Buddy/Init.antt =====
-- kernel/mm/buddy.c: `init_zone`.
use kernal.Prelude.{
  ℕ, zero, suc, ◌+◌, ◌/◌, ◌%◌, ◌&&◌, none, some, List, [], ◌==◌, ltb, if◌then◌else◌, set,
}
use kernal.Prelude.Int.{ℤ, pos, negsuc, minus}
use kernal.Spinlock.{Lock, spin_lock_init}
use kernal.Task.Fields.{Pointer}
use kernal.Buddy.{Zone, write, max_order, migrate_types, ulong_mod}

-- The code of kernel/include/types.h.
abbrev einval : ℤ
einval = negsuc 2

abbrev pub max_nr_zones : ℕ
max_nr_zones = 4

abbrev pub nr_lru_lists : ℕ
nr_lru_lists = 5

-- What compaction keeps in a zone.
pub record Compaction : Type 0 where
  pub cached_free_pfn : ℕ
  pub cached_migrate_pfn : ℕ → ℕ
  pub init_migrate_pfn : ℕ
  pub init_free_pfn : ℕ
  pub considered : ℕ
  pub defer_shift : ℕ
  pub order_failed : ℤ

pub record WaitTable : Type 0 where
  pub wait_table : Pointer
  pub wait_table_hash_nr_entries : ℕ
  pub wait_table_bits : ℕ

-- `struct zone`, as far as `init_zone` writes it.
pub record ZoneState (A : Type 0) : Type 0 where
  pub area : Zone A
  pub present_pages : ℕ
  pub managed_pages : ℕ
  pub lock : Lock
  pub lru_lock : Lock
  pub watermark : ℕ → ℕ
  pub pages_scanned : ℕ
  pub lists : ℕ → List ℕ
  pub compact : Compaction
  pub wait : WaitTable

-- The zones by address, and the table of them.
pub record Zones (A : Type 0) : Type 0 where
  pub zone : ℕ → ZoneState A
  pub zones : List Pointer
  pub nr_zones : ℕ

-- The rounds left, and `migratetype`.
unfoldable pub type_loop : ℕ → ℕ → ℕ → (ℕ → ℕ → List ℕ) → ℕ → ℕ → List ℕ
type_loop zero mt order l = l
type_loop (suc n) mt order l =
    type_loop n (mt + 1) order (λ o m. if (o == order) && (m == mt) then [] else l o m)

unfoldable pub lru_loop : ℕ → ℕ → (ℕ → List ℕ) → ℕ → List ℕ
lru_loop zero i l = l
lru_loop (suc n) i l = lru_loop n (i + 1) (write l i [])

module _ {A : Type 0} where
  unfoldable pub area_loop : ℕ → ℕ → Zone A → Zone A
  unfolding type_loop
  area_loop zero order z = z
  area_loop (suc n) order z = area_loop n (order + 1) (record z {
    free_list = type_loop migrate_types 0 order z.free_list;
    nr_free = write z.nr_free order 0;
  })

  -- The writes to the zone.
  unfoldable pub init_state : ℕ → ℕ → ZoneState A → ZoneState A
  unfolding area_loop lru_loop
  init_state start_pfn size s = record {
    area = record (area_loop max_order 0 s.area) {
      zone_start_pfn = start_pfn;
      spanned_pages = size;
      free_pages = 0;
    };
    present_pages = size;
    managed_pages = size;
    lock = spin_lock_init s.lock;
    lru_lock = spin_lock_init s.lru_lock;
    watermark = write (write (write s.watermark 0 (size / 256)) 1 (size / 128)) 2 (size / 64);
    pages_scanned = 0;
    lists = lru_loop nr_lru_lists 0 s.lists;
    compact = record {
      cached_free_pfn = start_pfn;
      cached_migrate_pfn = write (write s.compact.cached_migrate_pfn 0 start_pfn) 1 start_pfn;
      init_migrate_pfn = start_pfn;
      init_free_pfn = (start_pfn + size) % ulong_mod;
      considered = 0;
      defer_shift = 0;
      order_failed = negsuc 0;
    };
    wait = record { wait_table = none; wait_table_hash_nr_entries = 0; wait_table_bits = 0 };
  }

  abbrev pub register : ℕ → Zones A → Zones A
  register p s =
      if ltb s.nr_zones max_nr_zones
      then record s { zones = set s.zones s.nr_zones (some p); nr_zones = s.nr_zones + 1 }
      else s

  -- `zone_lock` is free when it is taken, and `nr_zones` far from the range of an int.
  unfoldable pub init_zone : Pointer → ℕ → ℕ → Zones A → ℤ × Zones A
  unfolding init_state
  init_zone none start_pfn size s = (minus einval, s)
  init_zone (some p) start_pfn size s = (
    pos 0,
    register p (record s { zone = write s.zone p (init_state start_pfn size (s.zone p)) }),
  )
