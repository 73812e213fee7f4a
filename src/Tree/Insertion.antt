-- ===== src/Tree/Insertion.antt =====
-- The insertion of a new key by common/src/tree.c where no rotation is needed.
use iu7_pvs_cp.Base.{
  ℕ, zero, suc, ◌<◌, Bool, true, false, not, ◌&&◌, Option, none, some, Bytes, length, take, ◌==◌,
  if◌then◌else◌, ◌≡◌, ◌≢◌, ◌⊎◌, inl, inr, refl, ap, sym, ◌∙◌,
}
use iu7_pvs_cp.Tree.{
  red, black, Nodes, put, set_left, set_right, set_color, make_tree_node, fixed, fix_after_insert,
}
use iu7_pvs_cp.Tree.Dict.{
  Place, at_root, left_of, right_of, find_tree_node, find_place, hang, put_at, at_place,
  insert_tree_node, dict_set, dict_get,
}
use iu7_pvs_cp.Tree.Updates.{
  IsFresh, put-other, put-same, made_key, dict_get-found, find_tree_node-ne_node,
}
use iu7_pvs_cp.Tree.Leaves.{child_of, child, is_null, Grown}
use iu7_pvs_cp.Tree.Leaves.Search.{other_kept, leaf_reached}

-- A search for a place does not see a new node.
find_place-make_tree_node :
    (fuel : ℕ) (h : Nodes) (node p : ℕ) (place : Place) (new_key : Bytes) (value : ℕ) (key : Bytes)
    → IsFresh node p h
    → find_place fuel (make_tree_node h node new_key value) p place key
      ≡ find_place fuel h p place key
unfolding find_place make_tree_node
find_place-make_tree_node zero h node p place new_key value key f = refl
find_place-make_tree_node (suc fuel) h node p place new_key value key f =
    let l =
      find_place-make_tree_node fuel h node (h.left p) (left_of p) new_key value key
        (record { not_root = f.not_left p; not_left = f.not_left; not_right = f.not_right }) in
    let r =
      find_place-make_tree_node fuel h node (h.right p) (right_of p) new_key value key
        (record { not_root = f.not_right p; not_left = f.not_left; not_right = f.not_right }) in
    rw (put-other h.key node (take 128 new_key) p f.not_root) (
      rw (put-other h.left node 0 p f.not_root)
        (rw (put-other h.right node 0 p f.not_root) (rw l (rw r refl))))

abbrev set_child : Nodes → Bool → ℕ → ℕ → Nodes
set_child h true p v = set_left h p v
set_child h false p v = set_right h p v

-- The nodes behind the insertion.
abbrev attached : Nodes → Bool → ℕ → ℕ → Bytes → ℕ → Nodes
attached h side pp node key value =
    hang (set_child (make_tree_node h node key value) side pp node) pp node

and-false : (b : Bool) → (b && false) ≡ false
and-false true = refl
and-false false = refl

fix_after_insert-black :
    (fuel : ℕ) (h : Nodes) (root node pp : ℕ)
    → h.parent node ≡ pp
    → h.color pp ≡ black
    → fix_after_insert (suc fuel) h root node ≡ fixed (set_color h root black) root
unfolding fix_after_insert
fix_after_insert-black fuel h root node pp e c = rw e (rw c (rw (and-false (not (pp == 0))) refl))

put_at-child :
    (fuel : ℕ) (h : Nodes) (side : Bool) (root pp node : ℕ) (key : Bytes) (value : ℕ)
    → pp ≢ node
    → h.color pp ≡ black
    → put_at (suc fuel) (make_tree_node h node key value) root node (child_of side pp)
      ≡ fixed (set_color (attached h side pp node key value) root black) root
unfolding put_at make_tree_node
put_at-child fuel h true root pp node key value n c =
    fix_after_insert-black fuel (attached h true pp node key value) root node pp
      (put-same (put h.parent node 0) node pp)
      (put-other (put h.color node black) node red pp n ∙ put-other h.color node black pp n ∙ c)
put_at-child fuel h false root pp node key value n c =
    fix_after_insert-black fuel (attached h false pp node key value) root node pp
      (put-same (put h.parent node 0) node pp)
      (put-other (put h.color node black) node red pp n ∙ put-other h.color node black pp n ∙ c)

attached-Grown :
    (h : Nodes) (side : Bool) (root pp node : ℕ) (key : Bytes) (value : ℕ)
    → length key < 128
    → pp ≢ node
    → Grown h (set_color (attached h side pp node key value) root black) side pp node key
unfolding make_tree_node
attached-Grown h true root pp node key value l n = record {
  key = λ q m. put-other h.key node (take 128 key) q m;
  left = λ q m. ap (λ x. if q == pp then node else x) (put-other h.left node 0 q m);
  right = λ q m. put-other h.right node 0 q m;
  node_key = made_key h node key value l;
  node_left = put-other (put h.left node 0) pp node node (λ e. n (sym e)) ∙ put-same h.left node 0;
  node_right = put-same h.right node 0;
}
attached-Grown h false root pp node key value l n = record {
  key = λ q m. put-other h.key node (take 128 key) q m;
  left = λ q m. put-other h.left node 0 q m;
  right = λ q m. ap (λ x. if q == pp then node else x) (put-other h.right node 0 q m);
  node_key = made_key h node key value l;
  node_left = put-same h.left node 0;
  node_right =
      put-other (put h.right node 0) pp node node (λ e. n (sym e)) ∙ put-same h.right node 0;
}

dict_set-child :
    (fuel : ℕ) (h : Nodes) (side : Bool) (root pp node : ℕ) (key : Bytes) (value : ℕ)
    → IsFresh node root h
    → length key < 128
    → pp ≢ node
    → h.color pp ≡ black
    → find_place (suc fuel) h root at_root key ≡ some (child_of side pp)
    → dict_set (suc fuel) node h root key value
      ≡ fixed (set_color (attached h side pp node key value) root black) root
unfolding dict_set insert_tree_node
dict_set-child fuel h side root pp node key value f l n c e =
    let g = make_tree_node h node key value in
    let s = find_place-make_tree_node (suc fuel) h node root at_root key value key f ∙ e in
    ap (λ x. at_place (find_place (suc fuel) g root at_root x) (put_at (suc fuel) g root node))
      (made_key h node key value l)
    ∙ ap (λ o. at_place o (put_at (suc fuel) g root node)) s
    ∙ put_at-child fuel h side root pp node key value n c

at_root-ne_child_of : (side : Bool) (pp : ℕ) → at_root ≢ child_of side pp
at_root-ne_child_of true pp e = cc e
at_root-ne_child_of false pp e = cc e

value_new :
    (h : Nodes) (side : Bool) (pp node : ℕ) (key : Bytes) (value : ℕ)
    → (attached h side pp node key value).value node ≡ value
unfolding make_tree_node
value_new h true pp node key value = put-same h.value node value
value_new h false pp node key value = put-same h.value node value

value_old :
    (h : Nodes) (side : Bool) (pp node : ℕ) (key : Bytes) (value q : ℕ)
    → q ≢ node
    → (attached h side pp node key value).value q ≡ h.value q
unfolding make_tree_node
value_old h true pp node key value q n = put-other h.value node value q n
value_old h false pp node key value q n = put-other h.value node value q n

-- What `dict_get` makes of the node that is found.
abbrev answer : Nodes → ℕ → Option ℕ
answer h p = if p == 0 then none else some (h.value p)

dict_get-answer :
    (fuel : ℕ) (h : Nodes) (root : ℕ) (key : Bytes) (p : ℕ)
    → find_tree_node fuel h root key ≡ some p
    → dict_get fuel h root key ≡ some (answer h p)
unfolding dict_get
dict_get-answer fuel h root key p e = rw (e, dict_get) refl

dict_get-none :
    (fuel : ℕ) (h : Nodes) (root : ℕ) (key : Bytes)
    → find_tree_node fuel h root key ≡ none
    → (r : Option ℕ) → dict_get fuel h root key ≢ some r
unfolding dict_get
dict_get-none fuel h root key z r e = none_ne (sym (rw (z, dict_get) refl) ∙ e)
  where
    none_ne : {A : Type 0} {x : A} → none ≢ some x
    none_ne e = cc e

-- A search that is kept gives the same value.
dict_get-kept :
    (fuel : ℕ) (h g : Nodes) (node root : ℕ) (key : Bytes) (r : Option ℕ)
    → IsFresh node root h
    → ((q : ℕ) → q ≢ node → g.value q ≡ h.value q)
    → ((p : ℕ)
        → find_tree_node fuel h root key ≡ some p
        → find_tree_node (suc fuel) g root key ≡ some p)
    → dict_get fuel h root key ≡ some r
    → dict_get (suc fuel) g root key ≡ some r
dict_get-kept fuel h g node root key r f same kept e = got (find_tree_node fuel h root key) refl
  where
    same_answer : (p : ℕ) → find_tree_node fuel h root key ≡ some p → answer g p ≡ answer h p
    same_answer p z = elim (is_null p) [
      | inl b ↦ rw b refl
      | inr b ↦
          ap (λ v. if p == 0 then none else some v)
            (same p (find_tree_node-ne_node fuel h node root key p f z b))
    ]

    got :
        (o : Option ℕ)
        → find_tree_node fuel h root key ≡ o
        → dict_get (suc fuel) g root key ≡ some r
    got none z = absurd (dict_get-none fuel h root key z r e)
    got (some p) z =
        dict_get-answer (suc fuel) g root key p (kept p z)
        ∙ ap some (same_answer p z)
        ∙ sym (dict_get-answer fuel h root key p z)
        ∙ e

-- When `malloc` gives a node that no pointer leads to, the key has fewer than 128 bytes, and the
-- insertion finds a NULL child of a black node for it, which is not the new one, `dict_set`
-- keeps the root, `dict_get` of the key then gives the value, and `dict_get` of every other key
-- gives what it gave before, -1 included, with fuel for one more step.
pub dict_get-dict_set_new :
    (fuel : ℕ) (h : Nodes) (side : Bool) (root pp node : ℕ) (key : Bytes) (value : ℕ)
    → IsFresh node root h
    → node ≢ 0
    → length key < 128
    → pp ≢ node
    → h.color pp ≡ black
    → find_place (suc fuel) h root at_root key ≡ some (child_of side pp)
    → (h' : Nodes) × (dict_set (suc fuel) node h root key value ≡ fixed h' root)
      × (dict_get (suc (suc fuel)) h' root key ≡ some (some value))
      × ((other : Bytes) (r : Option ℕ)
          → other ≢ key
          → dict_get (suc fuel) h root other ≡ some r
          → dict_get (suc (suc fuel)) h' root other ≡ some r)
dict_get-dict_set_new fuel h side root pp node key value f n l m c e =
    let g = set_color (attached h side pp node key value) root black in
    let grown = attached-Grown h side root pp node key value l m in
    let (empty, got) =
      reached (leaf_reached h g side pp node key grown n (suc fuel) root at_root f e) in
    (
      g,
      dict_set-child fuel h side root pp node key value f l m c e,
      got,
      λ other r d.
          dict_get-kept (suc fuel) h g node root other r f
            (λ q i. value_old h side pp node key value q i)
            (λ p i. other_kept h g side pp node key grown n (suc fuel) root other p d empty f i),
    )
  where
    reached :
        ((root ≡ 0) × (at_root ≡ child_of side pp))
          ⊎ ((child h side pp ≡ 0)
              × (find_tree_node
                    (suc (suc fuel))
                    (set_color (attached h side pp node key value) root black)
                    root
                    key
                  ≡ some node))
        → (child h side pp ≡ 0)
          × (dict_get
                (suc (suc fuel))
                (set_color (attached h side pp node key value) root black)
                root
                key
              ≡ some (some value))
    reached (inl (z, w)) = absurd (at_root-ne_child_of side pp w)
    reached (inr (z, w)) = (
      z,
      dict_get-found (suc (suc fuel)) (set_color (attached h side pp node key value) root black)
            root key w n
          ∙ ap (λ v. some (some v)) (value_new h side pp node key value),
    )
