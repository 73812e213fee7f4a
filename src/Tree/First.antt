-- ===== src/Tree/First.antt =====
-- The first key of a dictionary of common/src/tree.c.
use iu7_pvs_cp.Base.{ℕ, suc, ◌<◌, [], ◌∷◌, some, Bytes, length, ◌≡◌, ◌≢◌, refl, ==_differs, ==_self}
use iu7_pvs_cp.LinkedList.{list_init}
use iu7_pvs_cp.Tree.{
  red, black, Nodes, put, set_parent, set_color, make_tree_node, fixed, fix_after_insert,
}
use iu7_pvs_cp.Tree.Dict.{
  equal, strcmp, find_tree_node, find_place, put_at, insert_tree_node, dict_set,
}
use iu7_pvs_cp.Tree.Updates.{put-same, made_key}

pub strcmp_self : (a : Bytes) → strcmp a a ≡ equal
unfolding strcmp
strcmp_self [] = refl
strcmp_self (x ∷ a) = rw (==_self x) (strcmp_self a)

-- The nodes behind the first `dict_set`.
abbrev pub first : Nodes → ℕ → Bytes → ℕ → Nodes
unfolding list_init make_tree_node
first h node key value =
    let g = set_parent (set_color (make_tree_node h node key value) node red) node 0 in
    set_color (record g { list = list_init g.list node }) node black

fix_after_insert-root :
    (fuel : ℕ) (h : Nodes) (root node : ℕ)
    → h.parent node ≡ 0
    → fix_after_insert (suc fuel) h root node ≡ fixed (set_color h root black) root
unfolding fix_after_insert
fix_after_insert-root fuel h root node e = rw e refl

pub dict_set-first :
    (fuel node : ℕ) (h : Nodes) (key : Bytes) (value : ℕ)
    → dict_set (suc fuel) node h 0 key value ≡ fixed (first h node key value) node
unfolding dict_set insert_tree_node put_at find_place
dict_set-first fuel node h key value =
    fix_after_insert-root fuel _ node node (put-same (put h.parent node 0) node 0)

pub find_tree_node-first :
    (fuel node : ℕ) (h : Nodes) (key : Bytes) (value : ℕ)
    → node ≢ 0
    → length key < 128
    → find_tree_node (suc fuel) (first h node key value) node key ≡ some node
unfolding find_tree_node first
find_tree_node-first fuel node h key value n l =
    rw (==_differs node 0 n) (rw (made_key h node key value l) (rw (strcmp_self key) refl))

pub value-first :
    (node : ℕ) (h : Nodes) (key : Bytes) (value : ℕ) → (first h node key value).value node ≡ value
unfolding make_tree_node
value-first node h key value = put-same h.value node value

pub next-first :
    (node : ℕ) (h : Nodes) (key : Bytes) (value : ℕ)
    → (first h node key value).list.next node ≡ node
unfolding first list_init
next-first node h key value = rw (==_self node) refl
