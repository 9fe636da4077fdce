-- ===== src/ListHead/Tests.antt =====
-- kernel/include/list.h: the theorems at small lists.
use kernal.Prelude.{◌≡◌, some, [], ◌∷◌, arith}
use kernal.ListHead.{
  Mem, init_list_head, list_add, list_add_tail, list_del, list_splice_init, list_get_nth,
  list_poison1, list_poison2,
}
use kernal.ListHead.Chain.{SameOutside}
use kernal.ListHead.Ring.{
  Ring, init_list_head-Ring, Ring-SameOutside, list_add-Ring, list_add_tail-Ring, list_del-Ring,
}
use kernal.ListHead.Splice.{list_splice_init-Ring}
use kernal.ListHead.Walk.{list_get_nth-get_elem?}

abbrev blank : Mem
blank = record { next = λ _. 0; prev = λ _. 0 }

-- Two heads, 1 and 2; the entries 20 and 21 on the first and 30 on the second.
abbrev heads : Mem
heads = init_list_head 2 (init_list_head 1 blank)

abbrev one : Mem
one = list_add 20 1 heads

abbrev two : Mem
two = list_add_tail 21 1 one

abbrev three : Mem
three = list_add 30 2 two

heads_first : Ring heads 1 []
heads_first =
    Ring-SameOutside (2 ∷ []) 1 [] (init_list_head-Ring (init_list_head 1 blank) 2).1 (omega arith)
      (init_list_head-Ring blank 1).0

heads_second : Ring heads 2 []
heads_second = (init_list_head-Ring (init_list_head 1 blank) 2).0

list_add-Ring_example : Ring one 1 (20 ∷ []) × SameOutside (20 ∷ 1 ∷ []) heads one
list_add-Ring_example = list_add-Ring heads 20 1 [] (omega arith) heads_first

one_first : Ring one 1 (20 ∷ [])
one_first = (list_add-Ring heads 20 1 [] (omega arith) heads_first).0

two_first : Ring two 1 (20 ∷ 21 ∷ [])
two_first = (list_add_tail-Ring one 21 1 (20 ∷ []) (omega arith) one_first).0

two_second : Ring two 2 []
two_second =
    Ring-SameOutside (21 ∷ 1 ∷ 20 ∷ []) 2 []
      (list_add_tail-Ring one 21 1 (20 ∷ []) (omega arith) one_first).1 (omega arith)
      (Ring-SameOutside (20 ∷ 1 ∷ []) 2 [] (list_add-Ring heads 20 1 [] (omega arith) heads_first).1
        (omega arith) heads_second)

three_first : Ring three 1 (20 ∷ 21 ∷ [])
three_first =
    Ring-SameOutside (30 ∷ 2 ∷ []) 1 (20 ∷ 21 ∷ [])
      (list_add-Ring two 30 2 [] (omega arith) two_second).1 (omega arith) two_first

three_second : Ring three 2 (30 ∷ [])
three_second = (list_add-Ring two 30 2 [] (omega arith) two_second).0

list_del-Ring_example :
    Ring (list_del 20 three) 1 (21 ∷ [])
    × ((list_del 20 three).next 20 ≡ list_poison1)
    × ((list_del 20 three).prev 20 ≡ list_poison2)
    × SameOutside (20 ∷ 1 ∷ 21 ∷ []) three (list_del 20 three)
list_del-Ring_example = list_del-Ring three 1 [] 20 (21 ∷ []) three_first

list_splice_init-Ring_example :
    Ring (list_splice_init 1 2 three) 2 (20 ∷ 21 ∷ 30 ∷ []) × Ring (list_splice_init 1 2 three) 1 []
list_splice_init-Ring_example =
    list_splice_init-Ring three 1 (20 ∷ 21 ∷ []) 2 (30 ∷ []) three_first three_second (omega arith)

list_get_nth-get_elem?_example : list_get_nth 3 1 1 three ≡ some (some 21)
list_get_nth-get_elem?_example =
    list_get_nth-get_elem? three 1 3 (20 ∷ 21 ∷ []) 1 three_first (omega arith)
