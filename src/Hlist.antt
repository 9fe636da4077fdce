-- ===== src/Hlist.antt =====
-- kernel/include/list.h: the lists with a head of one pointer.
pub mod Seg
pub mod Listed
pub mod Added
pub mod Behind
mod Tests
use kernal.Prelude.{ℕ, Bool, not, ◌==◌, if◌then◌else◌}
use kernal.ListHead.{Ptr, update}

-- `first` of a head and `next` of a node are the first fields of their structs, so a cell has the
-- address of its struct: `next` is what the cell at an address holds, 0 for NULL, and `pprev` of a
-- node is the address of the cell that points to it.
pub record HlistMem : Type 0 where
  pub next : Ptr → Ptr
  pub pprev : Ptr → Ptr

-- *cell = v
abbrev pub set_cell : Ptr → Ptr → HlistMem → HlistMem
set_cell c v m = record m { next = update m.next c v }

abbrev pub set_pprev : Ptr → Ptr → HlistMem → HlistMem
set_pprev n v m = record m { pprev = update m.pprev n v }

abbrev pub init_hlist_head : Ptr → HlistMem → HlistMem
init_hlist_head h m = set_cell h 0 m

abbrev pub init_hlist_node : Ptr → HlistMem → HlistMem
init_hlist_node n m = set_pprev n 0 (set_cell n 0 m)

abbrev pub hlist_unhashed : Ptr → HlistMem → Bool
hlist_unhashed n m = m.pprev n == 0

abbrev pub hlist_empty : Ptr → HlistMem → Bool
hlist_empty h m = m.next h == 0

-- if (next) next->pprev = pprev;
abbrev pub point_back : Ptr → Ptr → HlistMem → HlistMem
point_back next pprev m = if next == 0 then m else set_pprev next pprev m

unfoldable pub __hlist_del : Ptr → HlistMem → HlistMem
__hlist_del n m =
    let next = m.next n in let pprev = m.pprev n in point_back next pprev (set_cell pprev next m)

unfoldable pub hlist_del : Ptr → HlistMem → HlistMem
unfolding __hlist_del
hlist_del n m =
    if hlist_unhashed n m then m else set_pprev n 0x200 (set_cell n 0x100 (__hlist_del n m))

unfoldable pub hlist_del_init : Ptr → HlistMem → HlistMem
unfolding __hlist_del
hlist_del_init n m = if hlist_unhashed n m then m else init_hlist_node n (__hlist_del n m)

unfoldable pub hlist_add_head : Ptr → Ptr → HlistMem → HlistMem
hlist_add_head n h m =
    let first = m.next h in set_pprev n h (set_cell h n (point_back first n (set_cell n first m)))

unfoldable pub hlist_add_before : Ptr → Ptr → HlistMem → HlistMem
hlist_add_before n next m =
    let m1 = set_pprev n (m.pprev next) (set_cell n next m) in
    set_pprev next n (set_cell (m1.pprev next) n m1)

-- `n->pprev->next = &n->next`, read as the write to the cell that `n->pprev` points to.
unfoldable pub hlist_add_behind : Ptr → Ptr → HlistMem → HlistMem
hlist_add_behind n prev m =
    let m1 = set_pprev n prev (set_cell prev n (set_cell n (m.next prev) m)) in
    if m1.next n == 0 then m1 else set_cell (m1.pprev n) n m1

unfoldable pub hlist_move_list : Ptr → Ptr → HlistMem → HlistMem
hlist_move_list old new m =
    let m1 = set_cell new (m.next old) m in
    if hlist_empty old m then m else set_cell old 0 (point_back (m1.next new) new m1)

unfoldable pub hlist_add_fake : Ptr → HlistMem → HlistMem
hlist_add_fake n m = set_pprev n n m
