-- ===== src/Hlist/Tests.antt =====
-- kernel/include/list.h: the head 1 with the nodes 2 and 3, and the node 4.
use kernal.Prelude.{◌≡◌, refl, [], ◌∷◌, ◌==◌, if◌then◌else◌, arith}
use kernal.Hlist.{HlistMem, __hlist_del, hlist_del, hlist_add_behind}
use kernal.Hlist.Listed.{IsHlist, SameOutside, hlist_del-IsHlist}
use kernal.Hlist.Behind.{Behind, hlist_add_behind-Behind}

abbrev two_nodes : HlistMem
two_nodes = record {
  next = λ p. if p == 1 then 2 else if p == 2 then 3 else 0;
  pprev = λ p. if p == 2 then 1 else if p == 3 then 2 else 0;
}

two_nodes-IsHlist : IsHlist two_nodes 1 (2 ∷ 3 ∷ [])
two_nodes-IsHlist = record {
  some_head = omega arith;
  seg = (refl, omega arith, refl, (refl, omega arith, refl, refl));
  out = omega arith;
  distinct = omega arith;
}

hlist_del-IsHlist_example :
    IsHlist (hlist_del 2 two_nodes) 1 (3 ∷ [])
    × ((hlist_del 2 two_nodes).next 2 ≡ 0x100)
    × ((hlist_del 2 two_nodes).pprev 2 ≡ 0x200)
    × SameOutside (2 ∷ 1 ∷ 3 ∷ []) two_nodes (hlist_del 2 two_nodes)
hlist_del-IsHlist_example = hlist_del-IsHlist two_nodes 1 [] 2 (3 ∷ []) two_nodes-IsHlist

hlist_add_behind-Behind_example : Behind (hlist_add_behind 4 2 two_nodes) 4 1 [] 2 (3 ∷ [])
hlist_add_behind-Behind_example =
    hlist_add_behind-Behind two_nodes 4 1 [] 2 (3 ∷ []) (omega arith) (omega arith)
      two_nodes-IsHlist

-- The node 4 is behind 2, and is gone with the node 3.
lost : (hlist_del 3 (hlist_add_behind 4 2 two_nodes)).next 2 ≡ 0
unfolding hlist_del hlist_add_behind __hlist_del
lost = refl
