-- ===== src/Tree/Dict.antt =====
-- Search, insertion and the dictionary of common/src/tree.c.
use iu7_pvs_cp.Base.{
  ℕ, zero, suc, Bool, not, [], ◌∷◌, Option, none, some, Bytes, ◌==◌, ltb, if◌then◌else◌,
}
use iu7_pvs_cp.LinkedList.{list_init, list_add}
use iu7_pvs_cp.Tree.{
  red, Nodes, put, set_left, set_right, set_parent, set_color, make_tree_node, Fixed, out_of_fuel,
  fixed, fix_after_insert,
}

-- The sign of what `strcmp` returns.
pub data Sign : Type 0 where
  negative equal positive : Sign

unfoldable pub strcmp : Bytes → Bytes → Sign
strcmp [] [] = equal
strcmp [] (y ∷ ys) = negative
strcmp (x ∷ xs) [] = positive
strcmp (x ∷ xs) (y ∷ ys) =
    let rest = strcmp xs ys in if x == y then rest else if ltb x y then negative else positive

abbrev pub turn : {A : Type 0} → Sign → A → A → A → A
turn positive left right here = left
turn negative left right here = right
turn equal left right here = here

-- The node with the key, or 0 for NULL; `none` when the fuel runs out.
unfoldable pub find_tree_node : ℕ → Nodes → ℕ → Bytes → Option ℕ
unfolding strcmp
find_tree_node zero h p key = none
find_tree_node (suc fuel) h p key =
    let to_left = find_tree_node fuel h (h.left p) key in
    let to_right = find_tree_node fuel h (h.right p) key in
    if p == 0 then some 0 else turn (strcmp (h.key p) key) to_left to_right (some p)

-- Where the loop of `insert_tree_node` stops: at a node with the key, or at a pointer that is NULL,
-- which is `*root` or a child.
pub data Place : Type 0 where
  taken : ℕ → Place
  at_root : Place
  left_of right_of : ℕ → Place

unfoldable pub find_place : ℕ → Nodes → ℕ → Place → Bytes → Option Place
unfolding strcmp
find_place zero h p place key = none
find_place (suc fuel) h p place key =
    let to_left = find_place fuel h (h.left p) (left_of p) key in
    let to_right = find_place fuel h (h.right p) (right_of p) key in
    if p == 0 then some place else turn (strcmp (h.key p) key) to_left to_right (some (taken p))

-- `*p = node`, and what follows.
abbrev pub hang : Nodes → ℕ → ℕ → Nodes
hang h parent node =
    let g = set_parent (set_color h node red) node parent in
    record g { list = list_add g.list parent node }

unfoldable pub put_at : ℕ → Nodes → ℕ → ℕ → Place → Fixed
unfolding fix_after_insert list_init list_add
put_at fuel h root node (taken pp) = fixed (record h { value = put h.value pp (h.value node) }) root
put_at fuel h root node at_root =
    let g = set_parent (set_color h node red) node 0 in
    fix_after_insert fuel (record g { list = list_init g.list node }) node node
put_at fuel h root node (left_of pp) =
    fix_after_insert fuel (hang (set_left h pp node) pp node) root node
put_at fuel h root node (right_of pp) =
    fix_after_insert fuel (hang (set_right h pp node) pp node) root node

abbrev pub at_place : Option Place → (Place → Fixed) → Fixed
at_place none f = out_of_fuel
at_place (some place) f = f place

unfoldable pub insert_tree_node : ℕ → Nodes → ℕ → ℕ → Fixed
unfolding find_place put_at
insert_tree_node fuel h root node =
    at_place (find_place fuel h root at_root (h.key node)) (put_at fuel h root node)

-- The nodes and the root of the dictionary. `size` is never written behind `dict_init`, and the root
-- is all that is left of dict_t. `node` is what `malloc` gave.
unfoldable pub dict_set : ℕ → ℕ → Nodes → ℕ → Bytes → ℕ → Fixed
unfolding make_tree_node insert_tree_node
dict_set fuel node h root key value =
    insert_tree_node fuel (make_tree_node h node key value) root node

-- -1 is `none`; the outer `none` is a lack of fuel.
unfoldable pub dict_get : ℕ → Nodes → ℕ → Bytes → Option (Option ℕ)
unfolding find_tree_node
dict_get fuel h root key = elim (find_tree_node fuel h root key) [
  | none ↦ none
  | some p ↦ some (if p == 0 then none else some (h.value p))
]

unfoldable pub dict_has : ℕ → Nodes → ℕ → Bytes → Option Bool
unfolding find_tree_node
dict_has fuel h root key = elim (find_tree_node fuel h root key) [
  | none ↦ none
  | some p ↦ some (not (p == 0))
]
