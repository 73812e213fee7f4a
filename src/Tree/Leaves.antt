-- ===== src/Tree/Leaves.antt =====
-- A tree of common/src/tree.c that has got one more leaf, and the steps of the searches in it.
pub mod Search
use iu7_pvs_cp.Base.{
  ℕ, zero, suc, Bool, true, false, not, ◌&&◌, Option, none, some, Bytes, ◌==◌, Bool-cases,
  if◌then◌else◌, ◌≡◌, ◌≢◌, ◌⊎◌, inl, inr, refl, ap, sym, ◌∙◌, subst, arith, ==_differs, ==_iff,
  ==_self,
}
use iu7_pvs_cp.Tree.{Nodes}
use iu7_pvs_cp.Tree.Dict.{
  Sign, negative, equal, positive, strcmp, turn, find_tree_node, Place, taken, left_of, right_of,
  find_place,
}
use iu7_pvs_cp.Tree.First.{strcmp_self}
use iu7_pvs_cp.Tree.Ordered.{strcmp-equal}
use iu7_pvs_cp.Tree.Updates.{IsFresh}

-- The pointer that the insertion changes; `true` is the left one.
abbrev pub child_of : Bool → ℕ → Place
child_of true p = left_of p
child_of false p = right_of p

abbrev pub child : Nodes → Bool → ℕ → ℕ
child h true p = h.left p
child h false p = h.right p

-- `g` is `h` with the leaf `node` of the key as a child of `pp`.
pub record Grown (h g : Nodes) (side : Bool) (pp node : ℕ) (new_key : Bytes) : Type 0 where
  pub key : (q : ℕ) → q ≢ node → g.key q ≡ h.key q
  pub left : (q : ℕ) → q ≢ node → g.left q ≡ (if side && (q == pp) then node else h.left q)
  pub right : (q : ℕ) → q ≢ node → g.right q ≡ (if not side && (q == pp) then node else h.right q)
  pub node_key : g.key node ≡ new_key
  pub node_left : g.left node ≡ 0
  pub node_right : g.right node ≡ 0

below : (node p q : ℕ) (h : Nodes) → IsFresh node p h → q ≢ node → IsFresh node q h
below node p q h f n = record { not_root = n; not_left = f.not_left; not_right = f.not_right }

find_tree_node-null :
    (fuel : ℕ) (h : Nodes) (p : ℕ) (key : Bytes)
    → p ≡ 0
    → find_tree_node (suc fuel) h p key ≡ some 0
unfolding find_tree_node
find_tree_node-null fuel h p key e = rw e refl

-- One step of the search at a node.
find_tree_node-turn :
    (fuel : ℕ) (h : Nodes) (p : ℕ) (key : Bytes) (s : Sign)
    → p ≢ 0
    → strcmp (h.key p) key ≡ s
    → find_tree_node (suc fuel) h p key
      ≡ turn s
          (find_tree_node fuel h (h.left p) key)
          (find_tree_node fuel h (h.right p) key)
          (some p)
unfolding find_tree_node
find_tree_node-turn fuel h p key s n e = rw (==_differs p 0 n) (rw e refl)

find_place-turn :
    (fuel : ℕ) (h : Nodes) (p : ℕ) (place : Place) (key : Bytes) (s : Sign)
    → p ≢ 0
    → strcmp (h.key p) key ≡ s
    → find_place (suc fuel) h p place key
      ≡ turn s
          (find_place fuel h (h.left p) (left_of p) key)
          (find_place fuel h (h.right p) (right_of p) key)
          (some (taken p))
unfolding find_place
find_place-turn fuel h p place key s n e = rw (==_differs p 0 n) (rw e refl)

pub is_null : (p : ℕ) → (p ≡ 0) ⊎ (p ≢ 0)
is_null zero = inl refl
is_null (suc p) = inr (λ e. omega arith)

find_tree_node-zero :
    (h : Nodes) (p : ℕ) (key : Bytes) (r : ℕ) → find_tree_node zero h p key ≢ some r
unfolding find_tree_node
find_tree_node-zero h p key r e = cc e

find_place-zero :
    (h : Nodes) (p : ℕ) (place : Place) (key : Bytes) (r : Place)
    → find_place zero h p place key ≢ some r
unfolding find_place
find_place-zero h p place key r e = cc e

find_place-null :
    (fuel : ℕ) (h : Nodes) (p : ℕ) (place : Place) (key : Bytes)
    → p ≡ 0
    → find_place (suc fuel) h p place key ≡ some place
unfolding find_place
find_place-null fuel h p place key e = rw e refl

some_same : {p q : Place} → some p ≡ some q → p ≡ q
some_same e = cc e

left_is : (side : Bool) (p q : ℕ) → left_of p ≡ child_of side q → (side ≡ true) × (p ≡ q)
left_is true p q e = (refl, cc e)
left_is false p q e = absurd (cc e)

right_is : (side : Bool) (p q : ℕ) → right_of p ≡ child_of side q → (side ≡ false) × (p ≡ q)
right_is false p q e = (refl, cc e)
right_is true p q e = absurd (cc e)

taken-ne_child_of : (side : Bool) (p q : ℕ) → taken p ≢ child_of side q
taken-ne_child_of true p q e = cc e
taken-ne_child_of false p q e = cc e
