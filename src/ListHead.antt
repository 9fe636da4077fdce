-- ===== src/ListHead.antt =====
-- kernel/include/list.h: the circular doubly linked lists.
pub mod Distinct
pub mod Chain
pub mod Ring
pub mod Transfer
pub mod Splice
pub mod Cut
pub mod Walk
mod Tests
use kernal.Prelude.{
  ℕ, zero, suc, ◌+◌, Bool, true, false, ◌&&◌, not, Option, none, some, ◌==◌, if◌then◌else◌,
}

abbrev pub Ptr : Type 0
Ptr = ℕ

-- The two pointers of the `struct list_head` at every address.
pub record Mem : Type 0 where
  pub next : Ptr → Ptr
  pub prev : Ptr → Ptr

abbrev pub update : (Ptr → Ptr) → Ptr → Ptr → Ptr → Ptr
update f p v q = if q == p then v else f q

-- p->next = q
abbrev pub set_next : Ptr → Ptr → Mem → Mem
set_next p q h = record h { next = update h.next p q }

-- p->prev = q
abbrev pub set_prev : Ptr → Ptr → Mem → Mem
set_prev p q h = record h { prev = update h.prev p q }

pub init_list_head : Ptr → Mem → Mem
init_list_head list h = set_prev list list (set_next list list h)

pub list_empty : Ptr → Mem → Bool
list_empty head h = h.next head == head

pub __list_add : Ptr → Ptr → Ptr → Mem → Mem
__list_add new prev next h =
    set_next prev new (set_prev new prev (set_next new next (set_prev next new h)))

pub list_add : Ptr → Ptr → Mem → Mem
list_add new head h = __list_add new head (h.next head) h

pub list_add_tail : Ptr → Ptr → Mem → Mem
list_add_tail new head h = __list_add new (h.prev head) head h

pub list_is_last : Ptr → Ptr → Mem → Bool
list_is_last list head h = h.next list == head

pub list_is_first : Ptr → Ptr → Mem → Bool
list_is_first list head h = h.prev list == head

-- The value that the body returns; the source declares the function `void`.
pub list_is_singular : Ptr → Mem → Bool
list_is_singular head h = not (h.next head == head) && (h.next (h.next head) == head)

pub __list_del : Ptr → Ptr → Mem → Mem
__list_del prev next h = set_next prev next (set_prev next prev h)

-- The poison that a deleted entry is left with.
abbrev pub list_poison1 : Ptr
list_poison1 = 0x100

abbrev pub list_poison2 : Ptr
list_poison2 = 0x200

pub list_del : Ptr → Mem → Mem
list_del entry h =
    set_prev entry list_poison2
      (set_next entry list_poison1 (__list_del (h.prev entry) (h.next entry) h))

pub list_del_init : Ptr → Mem → Mem
list_del_init entry h = init_list_head entry (__list_del (h.prev entry) (h.next entry) h)

-- Each of the four writes reads the memory that the writes before it left.
pub list_replace : Ptr → Ptr → Mem → Mem
list_replace old new h =
    let h1 = set_next new (h.next old) h in
    let h2 = set_prev (h1.next new) new h1 in
    let h3 = set_prev new (h2.prev old) h2 in set_next (h3.prev new) new h3

pub list_replace_init : Ptr → Ptr → Mem → Mem
list_replace_init old new h = init_list_head old (list_replace old new h)

pub list_move : Ptr → Ptr → Mem → Mem
list_move list head h = list_add list head (__list_del (h.prev list) (h.next list) h)

pub list_move_tail : Ptr → Ptr → Mem → Mem
list_move_tail list head h = list_add_tail list head (__list_del (h.prev list) (h.next list) h)

pub list_rotate_left : Ptr → Mem → Mem
list_rotate_left head h = if list_empty head h then h else list_move_tail (h.next head) head h

pub __list_cut_position : Ptr → Ptr → Ptr → Mem → Mem
__list_cut_position list head entry h =
    let new_first = h.next entry in
    let h1 = set_next list (h.next head) h in
    let h2 = set_prev (h1.next list) list h1 in
    let h3 = set_prev list entry h2 in
    let h4 = set_next entry list h3 in
    let h5 = set_next head new_first h4 in set_prev new_first head h5

pub list_cut_position : Ptr → Ptr → Ptr → Mem → Mem
list_cut_position list head entry h =
    if list_empty head h
    then h
    else if list_is_singular head h && (not (h.next head == entry) && not (h.prev head == entry))
    then h
    else if entry == head
    then init_list_head list h
    else __list_cut_position list head entry h

-- The source names the second parameter `head` and uses it as `prev`.
pub __list_splice : Ptr → Ptr → Ptr → Mem → Mem
__list_splice list prev next h =
    let first = h.next list in
    let last = h.prev list in
    set_prev next last (set_next last next (set_next prev first (set_prev first prev h)))

pub list_splice : Ptr → Ptr → Mem → Mem
list_splice list head h = if list_empty list h then h else __list_splice list head (h.next head) h

pub list_splice_tail : Ptr → Ptr → Mem → Mem
list_splice_tail list head h =
    if list_empty list h then h else __list_splice list (h.prev head) head h

pub list_splice_init : Ptr → Ptr → Mem → Mem
list_splice_init list head h =
    if list_empty list h then h else init_list_head list (__list_splice list head (h.next head) h)

pub list_splice_tail_init : Ptr → Ptr → Mem → Mem
list_splice_tail_init list head h =
    if list_empty list h then h else init_list_head list (__list_splice list (h.prev head) head h)

-- The rounds of `list_for_each` from `pos` in `list_count_nodes`; `none` when the fuel runs out.
pub count_loop : ℕ → Ptr → Ptr → ℕ → Mem → Option ℕ
count_loop zero head pos count h = none
count_loop (suc k) head pos count h =
    let rest = count_loop k head (h.next pos) (count + 1) h in
    if pos == head then some count else rest

pub list_count_nodes : ℕ → Ptr → Mem → Option ℕ
list_count_nodes fuel head h = count_loop fuel head (h.next head) 0 h

pub contains_loop : ℕ → Ptr → Ptr → Ptr → Mem → Option Bool
contains_loop zero head pos node h = none
contains_loop (suc k) head pos node h =
    let rest = contains_loop k head (h.next pos) node h in
    if pos == head then some false else if pos == node then some true else rest

pub list_contains : ℕ → Ptr → Ptr → Mem → Option Bool
list_contains fuel head node h = contains_loop fuel head (h.next head) node h

-- The inner option is the returned pointer, `none` for `NULL`.
pub nth_loop : ℕ → Ptr → Ptr → ℕ → ℕ → Mem → Option (Option Ptr)
nth_loop zero head pos i n h = none
nth_loop (suc k) head pos i n h =
    let rest = nth_loop k head (h.next pos) (i + 1) n h in
    if pos == head then some none else if i == n then some (some pos) else rest

pub list_get_nth : ℕ → Ptr → ℕ → Mem → Option (Option Ptr)
list_get_nth fuel head n h = nth_loop fuel head (h.next head) 0 n h
