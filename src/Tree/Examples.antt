-- ===== src/Tree/Examples.antt =====
-- The theorems on common/src/tree.c at concrete trees.
use iu7_pvs_cp.Base.{
  Bytes, Option, false, inl, inr, ap, ℕ, ◌+◌, ◌==◌, ◌≤◌, if◌then◌else◌, some, codes, ◌≡◌, ◌≢◌, refl,
  arith, [],
}
use iu7_pvs_cp.Tree.{red, black, Nodes, fixed, right_rotate}
use iu7_pvs_cp.Tree.Dict.{strcmp, find_tree_node, find_place, dict_set, dict_get}
use iu7_pvs_cp.Tree.Updates.{IsFresh, dict_get-dict_set}
use iu7_pvs_cp.Tree.Rotations.{right_rotate-parent}
use iu7_pvs_cp.Tree.Insertion.{dict_get-dict_set_new}
use iu7_pvs_cp.Tree.Ordered.{leaf, branch, Shape, Stands, IsOrdered, Maps, dict_get-Maps}

-- The root 1 with the key "M", and its children 2 with "A" and 3 with "T".
abbrev three : Nodes
three = record {
  key = λ p.
      if p == 1 then codes "M" else if p == 2 then codes "A" else if p == 3 then codes "T" else [];
  value = λ p. p + 10;
  parent = λ p. if p == 2 then 1 else if p == 3 then 1 else 0;
  left = λ p. if p == 1 then 2 else 0;
  right = λ p. if p == 1 then 3 else 0;
  color = λ p. if p == 1 then black else red;
  list = record { next = λ p. 0; prev = λ p. 0 };
}

four-IsFresh : IsFresh 4 1 three
four-IsFresh = record {
  not_root = λ e. omega arith;
  not_left = λ p. small p 2 (omega arith);
  not_right = λ p. small p 3 (omega arith);
}
  where
    small : (p n : ℕ) → n ≤ 3 → (if p == 1 then n else 0) ≢ 4
    small p n h = ground arith

get : dict_get 3 three 1 (codes "T") ≡ some (some 13)
unfolding dict_get find_tree_node
get = refl

dict_get-dict_set_example :
    (h' : Nodes) × (dict_set 3 4 three 1 (codes "T") 99 ≡ fixed h' 1)
    × (dict_get 3 h' 1 (codes "T") ≡ some (some 99))
    × (dict_get 3 h' 1 (codes "A") ≡ dict_get 3 three 1 (codes "A"))
unfolding find_tree_node
dict_get-dict_set_example =
    dict_get-dict_set 3 4 three 1 (codes "T") 99 3 (codes "A") 2 four-IsFresh (omega arith) refl
      (λ e. omega arith) refl (λ e. omega arith) (λ e. omega arith)

-- 1 has the right child 2, and that the left child 3.
abbrev bent : Nodes
bent = record three {
  parent = λ p. if p == 2 then 1 else if p == 3 then 2 else 0;
  left = λ p. if p == 2 then 3 else 0;
  right = λ p. if p == 1 then 2 else 0;
}

right_rotate-parent_example :
    (s : Nodes × ℕ) × (right_rotate bent 1 1 ≡ some s) × (s.0.right 1 ≡ 3) × (s.0.parent 3 ≡ 2)
right_rotate-parent_example = right_rotate-parent bent 1 1 2 3 (record {
  child = refl;
  grandchild = refl;
  parent_of = refl;
  up_set = λ e. omega arith;
  node_up = λ e. omega arith;
  moved_node = λ e. omega arith;
  moved_up = λ e. omega arith;
  no_loop = λ e. omega arith;
})

abbrev three_shape : Shape
three_shape = branch 1 (branch 2 leaf leaf) (branch 3 leaf leaf)

three-Stands : Stands three 1 three_shape
three-Stands = (
  refl,
  λ e. omega arith,
  (refl, λ e. omega arith, refl, refl),
  (refl, λ e. omega arith, refl, refl),
)

three-IsOrdered : IsOrdered three three_shape
unfolding strcmp
three-IsOrdered = (
  λ q i. elim i [
    | inl e ↦ ap (λ q. strcmp (codes "M") (three.key q)) e
    | inr (inl i) ↦ absurd i
    | inr (inr i) ↦ absurd i
  ],
  λ q i. elim i [
    | inl e ↦ ap (λ q. strcmp (codes "M") (three.key q)) e
    | inr (inl i) ↦ absurd i
    | inr (inr i) ↦ absurd i
  ],
  (λ q i. absurd i, λ q i. absurd i, tt, tt),
  (λ q i. absurd i, λ q i. absurd i, tt, tt),
)

dict_get-Maps_example : Maps three three_shape (codes "T") (dict_get 4 three 1 (codes "T"))
dict_get-Maps_example =
    dict_get-Maps three three_shape 1 4 (codes "T") three-Stands three-IsOrdered (omega arith)

abbrev black_three : Nodes
black_three = record three { color = λ p. black }

black_three-IsFresh : IsFresh 4 1 black_three
black_three-IsFresh = record {
  not_root = four-IsFresh.not_root;
  not_left = four-IsFresh.not_left;
  not_right = four-IsFresh.not_right;
}

dict_get-dict_set_new_example :
    (h' : Nodes) × (dict_set 4 4 black_three 1 (codes "Z") 99 ≡ fixed h' 1)
    × (dict_get 5 h' 1 (codes "Z") ≡ some (some 99))
    × ((other : Bytes) (r : Option ℕ)
        → other ≢ codes "Z"
        → dict_get 4 black_three 1 other ≡ some r
        → dict_get 5 h' 1 other ≡ some r)
unfolding find_place strcmp
dict_get-dict_set_new_example =
    dict_get-dict_set_new 3 black_three false 1 3 4 (codes "Z") 99 black_three-IsFresh
      (λ e. omega arith) (omega arith) (λ e. omega arith) refl refl
