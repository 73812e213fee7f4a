-- ===== src/Tree/Rotations.antt =====
-- What the rotations of common/src/tree.c leave of the parents.
use iu7_pvs_cp.Base.{
  ℕ, Bool, true, false, some, ◌==◌, if◌then◌else◌, ◌≡◌, ◌≢◌, refl, ap, sym, ◌∙◌, ==_differs,
}
use iu7_pvs_cp.Tree.{
  red, Nodes, put, set_left, set_right, set_parent, set_color, replace_child, right_rotate,
}
use iu7_pvs_cp.Tree.Updates.{put-other, put-same}

-- `node`, its right child and the left child of that, linked in both directions.
pub record IsLinked (h : Nodes) (node up moved : ℕ) : Type 0 where
  pub child : h.right node ≡ up
  pub grandchild : h.left up ≡ moved
  pub parent_of : h.parent moved ≡ up
  pub up_set : up ≢ 0
  pub node_up : node ≢ up
  pub moved_node : moved ≢ node
  pub moved_up : moved ≢ up
  pub no_loop : h.parent node ≢ node

-- The two links that matter below are as they were.
record Same (h g : Nodes) (node moved : ℕ) : Type 0 where
  right : g.right node ≡ h.right node
  parent : g.parent moved ≡ h.parent moved

abbrev pick : Bool → Nodes × ℕ → Nodes × ℕ → Nodes × ℕ
pick b x y = if b then x else y

Same-if :
    {h : Nodes} {node moved : ℕ} (b : Bool) (x y : Nodes × ℕ)
    → Same h x.0 node moved
    → Same h y.0 node moved
    → Same h (pick b x y).0 node moved
Same-if true x y p q = p
Same-if false x y p q = q

replace_child-Same :
    (h : Nodes) (root parent node child moved : ℕ)
    → parent ≢ node
    → Same h (replace_child h root parent node child).0 node moved
replace_child-Same h root parent node child moved n =
    Same-if (parent == 0) (h, child) _ (record { right = refl; parent = refl })
      (Same-if (h.left parent == node) (set_left h parent child, root)
        (set_right h parent child, root) (record { right = refl; parent = refl })
        (record { right = put-other h.right parent child node (λ k. n (sym k)); parent = refl }))

-- The nodes before the pointer to `node` is replaced.
abbrev turned : Nodes → ℕ → Nodes
turned h node =
    let right = h.right node in
    let h1 = set_right h node (h.left right) in
    let h2 = set_parent h1 node right in
    let h3 = set_left h2 right node in
    let h4 = set_color h3 right (h3.color node) in
    let h5 = set_parent h4 right (h.parent node) in set_color h5 node red

right_rotate-turned :
    (h : Nodes) (root node : ℕ)
    → h.right node ≢ 0
    → right_rotate h root node
      ≡ some (replace_child (turned h node) root (h.parent node) node (h.right node))
unfolding right_rotate
right_rotate-turned h root node n = rw (==_differs (h.right node) 0 n) refl

-- When a node, its right child and the left child of that are linked in both directions and the
-- node is not its own parent, `right_rotate` makes the last of them the right child of the node
-- but leaves the old parent in it.
pub right_rotate-parent :
    (h : Nodes) (root node up moved : ℕ)
    → IsLinked h node up moved
    → (s : Nodes × ℕ) × (right_rotate h root node ≡ some s)
      × (s.0.right node ≡ moved)
      × (s.0.parent moved ≡ up)
right_rotate-parent h root node up moved k =
    let kept =
      replace_child-Same (turned h node) root (h.parent node) node (h.right node) moved k.no_loop in
    (
      replace_child (turned h node) root (h.parent node) node (h.right node),
      right_rotate-turned h root node (λ e. k.up_set (sym k.child ∙ e)),
      kept.right ∙ put-same h.right node (h.left (h.right node)) ∙ ap h.left k.child ∙ k.grandchild,
      kept.parent
          ∙ put-other (put h.parent node (h.right node)) (h.right node) (h.parent node) moved
              (λ e. k.moved_up (e ∙ k.child))
          ∙ put-other h.parent node (h.right node) moved k.moved_node
          ∙ k.parent_of,
    )
