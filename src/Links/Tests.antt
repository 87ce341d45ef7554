-- ===== src/Links/Tests.antt =====
-- include/lib/list.h: the theorems at a store of three nodes.
use hurlex_ii.Base.{refl, [], ◌∷◌, arith}
use hurlex_ii.Links.{Links, list_add, list_del, list_splice_init}
use hurlex_ii.Links.{init_list_head}
use hurlex_ii.Links.Ring.{IsRing}
use hurlex_ii.Links.Ops.{list_del-IsRing}
use hurlex_ii.Links.Splice.{list_splice_init-IsRing}

abbrev blank : Links
blank = record { next = λ p. 0; prev = λ p. 0 }

-- Head 1, nodes 2 and 3; head 4, node 5.
abbrev store : Links
unfolding init_list_head list_add
store = list_add 5 4 (list_add 2 1 (list_add 3 1 (init_list_head 4 (init_list_head 1 blank))))

store-IsRing : IsRing store 1 (2 ∷ 3 ∷ [])
unfolding init_list_head list_add
store-IsRing = record { path = omega arith; distinct = (refl, (refl, (refl, tt))) }

store_second-IsRing : IsRing store 4 (5 ∷ [])
unfolding init_list_head list_add
store_second-IsRing = record { path = omega arith; distinct = (refl, (refl, tt)) }

list_del-IsRing_example : IsRing (list_del 3 store) 1 (2 ∷ [])
list_del-IsRing_example = list_del-IsRing store 3 1 (2 ∷ []) [] store-IsRing

list_splice_init-IsRing_example :
    IsRing (list_splice_init 4 1 store) 1 (5 ∷ 2 ∷ 3 ∷ [])
    × IsRing (list_splice_init 4 1 store) 4 []
list_splice_init-IsRing_example =
    list_splice_init-IsRing store 4 1 (5 ∷ []) (2 ∷ 3 ∷ []) store_second-IsRing store-IsRing
      (λ v i. ground arith)
