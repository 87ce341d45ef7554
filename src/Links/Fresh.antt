-- ===== src/Links/Fresh.antt =====
-- include/lib/list.h: rings that have just been made.
use hurlex_ii.Base.{ℕ, [], ◌∷◌, arith}
use hurlex_ii.Links.{Links, init_list_head, list_add, list_add_between}
use hurlex_ii.Links.Ring.{IsRing, Distinct}

-- A list of one node, and two empty lists, in the order in which they are made.
abbrev pub three_lists : (h : Links) (a n c d : ℕ) → Links
three_lists h a n c d = init_list_head d (init_list_head c (list_add n a (init_list_head a h)))

pub three_lists-IsRing :
    (h : Links) (a n c d : ℕ)
    → Distinct (a ∷ n ∷ c ∷ d ∷ [])
    → IsRing (three_lists h a n c d) a (n ∷ [])
      × IsRing (three_lists h a n c d) c []
      × IsRing (three_lists h a n c d) d []
unfolding init_list_head list_add list_add_between
three_lists-IsRing h a n c d apart = (
  record { path = ground arith; distinct = ground arith },
  record { path = ground arith; distinct = ground arith },
  record { path = ground arith; distinct = ground arith },
)
