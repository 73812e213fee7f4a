-- ===== src/Tree.antt =====
-- common/src/tree.c and common/include/tree.h: the dictionary, a red-black tree of nodes in memory.
-- A node is its address, and 0 is NULL. `strcmp` compares bytes.
pub mod Dict
pub mod Updates
pub mod Rotations
pub mod First
pub mod Ordered
pub mod Leaves
pub mod Insertion
mod Examples
use iu7_pvs_cp.Base.{
  ℕ, zero, suc, Bool, true, false, not, ◌&&◌, List, [], ◌∷◌, Option, none, some, Bytes, take, ◌==◌,
  ltb, if◌then◌else◌,
}
use iu7_pvs_cp.LinkedList.{Links, list_init, list_add}

-- 'r' and 'b'
pub data Color : Type 0 where
  red black : Color

-- tree_node_t: the fields of all nodes.
pub record Nodes : Type 0 where
  pub key : ℕ → Bytes
  pub value : ℕ → ℕ
  pub parent : ℕ → ℕ
  pub left : ℕ → ℕ
  pub right : ℕ → ℕ
  pub color : ℕ → Color
  pub list : Links

abbrev pub put : {A : Type 0} → (ℕ → A) → ℕ → A → ℕ → A
put f p v q = if q == p then v else f q

abbrev pub set_left : Nodes → ℕ → ℕ → Nodes
set_left h p v = record h { left = put h.left p v }

abbrev pub set_right : Nodes → ℕ → ℕ → Nodes
set_right h p v = record h { right = put h.right p v }

abbrev pub set_parent : Nodes → ℕ → ℕ → Nodes
set_parent h p v = record h { parent = put h.parent p v }

abbrev pub set_color : Nodes → ℕ → Color → Nodes
set_color h p c = record h { color = put h.color p c }

abbrev pub is_red : Color → Bool
is_red red = true
is_red black = false

-- `node` is what `malloc` gave and is not 0. A key of 128 bytes or more loses its terminator; here it
-- is cut.
unfoldable pub make_tree_node : Nodes → ℕ → Bytes → ℕ → Nodes
unfolding list_init
make_tree_node h node key value = record {
  key = put h.key node (take 128 key);
  value = put h.value node value;
  parent = put h.parent node 0;
  left = put h.left node 0;
  right = put h.right node 0;
  color = put h.color node black;
  list = list_init h.list node;
}

-- `*root`, or a child of `parent`, is replaced.
abbrev pub replace_child : Nodes → ℕ → ℕ → ℕ → ℕ → Nodes × ℕ
replace_child h root parent node child =
    if parent == 0
    then (h, child)
    else if h.left parent == node
    then (set_left h parent child, root)
    else (set_right h parent child, root)

-- The nodes and the root; `none` when the child that goes up is NULL.
unfoldable pub right_rotate : Nodes → ℕ → ℕ → Option (Nodes × ℕ)
right_rotate h root node =
    let right = h.right node in
    let parent = h.parent node in
    let h1 = set_right h node (h.left right) in
    let h2 = set_parent h1 node right in
    let h3 = set_left h2 right node in
    let h4 = set_color h3 right (h3.color node) in
    let h5 = set_parent h4 right parent in
    let h6 = set_color h5 node red in
    if right == 0 then none else some (replace_child h6 root parent node right)

unfoldable pub left_rotate : Nodes → ℕ → ℕ → Option (Nodes × ℕ)
left_rotate h root node =
    let left = h.left node in
    let parent = h.parent node in
    let h1 = set_left h node (h.right left) in
    let h2 = set_parent h1 node left in
    let h3 = set_right h2 left node in
    let h4 = set_color h3 left (h3.color node) in
    let h5 = set_parent h4 left parent in
    let h6 = set_color h5 node red in
    if left == 0 then none else some (replace_child h6 root parent node left)

-- `none` when there is no grandparent.
unfoldable pub get_uncle : Nodes → ℕ → Option ℕ
get_uncle h node =
    let gp = h.parent (h.parent node) in
    if gp == 0
    then none
    else if h.left gp == h.parent node
    then some (h.right gp)
    else some (h.left gp)

-- What an operation leaves: the nodes and the root.
pub data Fixed : Type 0 where
  fault : Fixed
  out_of_fuel : Fixed
  fixed : Nodes → ℕ → Fixed

abbrev then_rotate : Option (Nodes × ℕ) → (Nodes → ℕ → Option (Nodes × ℕ)) → Option (Nodes × ℕ)
then_rotate none f = none
then_rotate (some s) f = f s.0 s.1

abbrev then_loop : Option (Nodes × ℕ) → (Nodes → ℕ → Fixed) → Fixed
then_loop none f = fault
then_loop (some s) f = f s.0 s.1

-- The two cases of a node whose uncle is black.
rotate_up : Nodes → ℕ → ℕ → Option (Nodes × ℕ)
unfolding right_rotate left_rotate
rotate_up h root node =
    let p = h.parent node in
    let gp = h.parent p in
    if h.left gp == p
    then then_rotate (if h.right p == node then right_rotate h root p else some (h, root))
        (λ h root. left_rotate h root gp)
    else then_rotate (if h.left p == node then left_rotate h root p else some (h, root))
        (λ h root. right_rotate h root gp)

-- The body of the loop of `fix_after_insert`.
fix_step : Nodes → ℕ → ℕ → Option ℕ → (Nodes → ℕ → ℕ → Fixed) → Fixed
unfolding rotate_up
fix_step h root node none again = fault
fix_step h root node (some uncle) again =
    let p = h.parent node in
    let gp = h.parent p in
    let recolored = set_color (set_color (set_color h p black) uncle black) gp red in
    if not (uncle == 0) && is_red (h.color uncle)
    then again recolored root gp
    else then_loop (rotate_up h root node) (λ h root. again h root node)

unfoldable pub fix_after_insert : ℕ → Nodes → ℕ → ℕ → Fixed
unfolding fix_step get_uncle
fix_after_insert zero h root node = out_of_fuel
fix_after_insert (suc fuel) h root node =
    let again = fix_step h root node (get_uncle h node) (fix_after_insert fuel) in
    if not (h.parent node == 0) && is_red (h.color (h.parent node))
    then again
    else fixed (set_color h root black) root
