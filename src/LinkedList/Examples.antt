-- ===== src/LinkedList/Examples.antt =====
-- The theorems on common/include/list.h at concrete lists.
use iu7_pvs_cp.Base.{some, ◌≡◌, [], ◌∷◌, refl, arith}
use iu7_pvs_cp.LinkedList.{Links, list_init, list_add, list_add_tail, list_foreach}
use iu7_pvs_cp.LinkedList.Ring.{IsRing}
use iu7_pvs_cp.LinkedList.Operations.{
  list_init-IsRing, list_add-IsRing_behind, list_add_tail-IsRing,
}

-- Memory in which all links are NULL.
abbrev blank : Links
blank = record { next = λ p. 0; prev = λ p. 0 }

abbrev one_head : Links
one_head = list_init blank 5

abbrev two_elements : Links
two_elements = list_add_tail one_head 5 7

one_head-IsRing : IsRing one_head 5 []
one_head-IsRing = list_init-IsRing blank 5

two_elements-IsRing : IsRing two_elements 5 (7 ∷ [])
two_elements-IsRing = list_add_tail-IsRing one_head 5 7 [] one_head-IsRing ((λ e. omega arith), tt)

visited : list_foreach 3 two_elements 5 ≡ some (5 ∷ 7 ∷ [])
unfolding list_foreach list_add_tail list_init
visited = refl

list_add-IsRing_behind_example : IsRing (list_add two_elements 7 9) 5 (7 ∷ 9 ∷ [])
list_add-IsRing_behind_example =
    list_add-IsRing_behind two_elements 5 7 9 [] [] two_elements-IsRing
      (λ e. omega arith, (λ e. omega arith, tt))
