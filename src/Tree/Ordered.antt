-- ===== src/Tree/Ordered.antt =====
-- The search of common/src/tree.c on a tree that is in the order of `strcmp`.
use iu7_pvs_cp.Base.{
  ℕ, zero, suc, ◌+◌, ◌<◌, Bool, true, false, [], ◌∷◌, Option, none, some, Bytes, ◌==◌, ltb,
  if◌then◌else◌, ◌≡◌, ◌≢◌, ◌⊎◌, inl, inr, refl, ap, sym, ◌∙◌, arith, ==_differs, ==_iff,
}
use iu7_pvs_cp.Tree.{Nodes}
use iu7_pvs_cp.Tree.Dict.{Sign, negative, equal, positive, strcmp, turn, find_tree_node, dict_get}
use iu7_pvs_cp.Tree.First.{strcmp_self}

-- A tree without pointers; a branch has the address of its node.
pub data Shape : Type 0 where
  leaf : Shape
  branch : ℕ → Shape → Shape → Shape

abbrev pub size : Shape → ℕ
size leaf = 0
size (branch a l r) = suc (size l + size r)

-- `q` is the address of a node of the tree.
abbrev pub In : ℕ → Shape → Type 0
In q leaf = ⊥
In q (branch a l r) = (q ≡ a) ⊎ (In q l ⊎ In q r)

-- The memory has this tree at `p`.
abbrev pub Stands : Nodes → ℕ → Shape → Type 0
Stands h p leaf = p ≡ 0
Stands h p (branch a l r) = (p ≡ a) × (a ≢ 0) × Stands h (h.left a) l × Stands h (h.right a) r

-- The keys on the left of a node are below its key, and those on the right above it.
abbrev pub IsOrdered : Nodes → Shape → Type 0
IsOrdered h leaf = Unit
IsOrdered h (branch a l r) =
    ((q : ℕ) → In q l → strcmp (h.key a) (h.key q) ≡ positive)
    × ((q : ℕ) → In q r → strcmp (h.key a) (h.key q) ≡ negative)
    × IsOrdered h l
    × IsOrdered h r

-- What `dict_get` has to return for the tree as a map: -1 when no node has the key, and else the
-- value of the one node that has it.
pub data Maps (h : Nodes) (t : Shape) (key : Bytes) : Option (Option ℕ) → Type 0 where
  missing : ((q : ℕ) → In q t → h.key q ≢ key) → Maps h t key (some none)
  holds :
      (p : ℕ)
      → In p t
      → h.key p ≡ key
      → ((q : ℕ) → In q t → h.key q ≡ key → q ≡ p)
      → Maps h t key (some (some (h.value p)))

-- The same of the node that `find_tree_node` returns.
data Finds (h : Nodes) (t : Shape) (key : Bytes) : Option ℕ → Type 0 where
  no_node : ((q : ℕ) → In q t → h.key q ≢ key) → Finds h t key (some 0)
  node :
      (p : ℕ)
      → p ≢ 0
      → In p t
      → h.key p ≡ key
      → ((q : ℕ) → In q t → h.key q ≡ key → q ≡ p)
      → Finds h t key (some p)

positive-ne_equal : positive ≢ equal
positive-ne_equal e = cc e

negative-ne_equal : negative ≢ equal
negative-ne_equal e = cc e

equal_heads :
    (same below : Bool) (rest : Sign)
    → (if same then rest else if below then negative else positive) ≡ equal
    → (same ≡ true) × (rest ≡ equal)
equal_heads true below rest e = (refl, e)
equal_heads false true rest e = absurd (cc e)
equal_heads false false rest e = absurd (cc e)

pub strcmp-equal : (a b : Bytes) → strcmp a b ≡ equal → a ≡ b
unfolding strcmp
strcmp-equal [] [] e = refl
strcmp-equal [] (y ∷ b) e = absurd (cc e)
strcmp-equal (x ∷ a) [] e = absurd (cc e)
strcmp-equal (x ∷ a) (y ∷ b) e =
    let (s, f) = equal_heads (x == y) (ltb x y) (strcmp a b) e in
    ap (λ z. z ∷ a) ((==_iff x y).0 s) ∙ ap (◌∷◌ y) (strcmp-equal a b f)

-- The keys of a subtree that is not searched are other keys.
other_side :
    (h : Nodes) (t : Shape) (key : Bytes) (a : ℕ) (s s' : Sign)
    → s ≢ s'
    → strcmp (h.key a) key ≡ s
    → ((q : ℕ) → In q t → strcmp (h.key a) (h.key q) ≡ s')
    → (q : ℕ) → In q t
    → h.key q ≢ key
other_side h t key a s s' n e f q i k = n (sym e ∙ ap (strcmp (h.key a)) (sym k) ∙ f q i)

other_key :
    (h : Nodes) (key : Bytes) (a : ℕ) (s : Sign)
    → s ≢ equal
    → strcmp (h.key a) key ≡ s
    → (q : ℕ) → q ≡ a
    → h.key q ≢ key
other_key h key a s n e q i k =
    n (sym e ∙ ap (strcmp (h.key a)) (sym k ∙ ap h.key i) ∙ strcmp_self (h.key a))

-- What a search in one subtree finds is what the tree has, when the key is not in the other parts.
module _ (h : Nodes) (a : ℕ) (l r : Shape) (key : Bytes)
    (here : (q : ℕ) → q ≡ a → h.key q ≢ key) where
  left_found :
      {o : Option ℕ}
      → ((q : ℕ) → In q r → h.key q ≢ key)
      → Finds h l key o
      → Finds h (branch a l r) key o
  left_found right (no_node f) =
      no_node (λ q i. elim i [ inl e ↦ here q e | inr (inl i) ↦ f q i | inr (inr i) ↦ right q i ])
  left_found right (node p n i k only) = node p n (inr (inl i)) k (λ q i k. elim i [
    | inl e ↦ absurd (here q e k)
    | inr (inl i) ↦ only q i k
    | inr (inr i) ↦ absurd (right q i k)
  ])

  right_found :
      {o : Option ℕ}
      → ((q : ℕ) → In q l → h.key q ≢ key)
      → Finds h r key o
      → Finds h (branch a l r) key o
  right_found left (no_node f) =
      no_node (λ q i. elim i [ inl e ↦ here q e | inr (inl i) ↦ left q i | inr (inr i) ↦ f q i ])
  right_found left (node p n i k only) = node p n (inr (inr i)) k (λ q i k. elim i [
    | inl e ↦ absurd (here q e k)
    | inr (inl i) ↦ absurd (left q i k)
    | inr (inr i) ↦ only q i k
  ])

here_found :
    (h : Nodes) (a : ℕ) (l r : Shape) (key : Bytes)
    → IsOrdered h (branch a l r)
    → a ≢ 0
    → strcmp (h.key a) key ≡ equal
    → Finds h (branch a l r) key (some a)
here_found h a l r key (below, above, _, _) n s =
    node a n (inl refl) (strcmp-equal (h.key a) key s) (λ q i k. elim i [
      | inl e ↦ e
      | inr (inl i) ↦ absurd (other_side h l key a equal positive (λ e. cc e) s below q i k)
      | inr (inr i) ↦ absurd (other_side h r key a equal negative (λ e. cc e) s above q i k)
    ])

find_tree_node-Finds :
    (h : Nodes) (t : Shape) (p fuel : ℕ) (key : Bytes)
    → Stands h p t
    → IsOrdered h t
    → size t < fuel
    → Finds h t key (find_tree_node fuel h p key)
unfolding find_tree_node
find_tree_node-Finds h t p zero key stands ordered enough = absurd (omega arith)
find_tree_node-Finds h leaf p (suc fuel) key stands ordered enough =
    rw stands (no_node (λ q i. absurd i))
find_tree_node-Finds h (branch a l r) p (suc fuel) key (e, n, at_left, at_right)
      (below, above, lower, upper) enough =
    let left = find_tree_node-Finds h l (h.left a) fuel key at_left lower (omega arith) in
    let right = find_tree_node-Finds h r (h.right a) fuel key at_right upper (omega arith) in
    rw e (rw (==_differs a 0 n) (turned (strcmp (h.key a) key) refl left right))
  where
    turned :
        {x y : Option ℕ} (s : Sign)
        → strcmp (h.key a) key ≡ s
        → Finds h l key x
        → Finds h r key y
        → Finds h (branch a l r) key (turn s x y (some a))
    turned positive s left right =
        left_found h a l r key (other_key h key a positive positive-ne_equal s)
          (other_side h r key a positive negative (λ e. cc e) s above) left
    turned negative s left right =
        right_found h a l r key (other_key h key a negative negative-ne_equal s)
          (other_side h l key a negative positive (λ e. cc e) s below) right
    turned equal s left right = here_found h a l r key (below, above, lower, upper) n s

-- When the memory has a tree at the root whose keys are in the order of `strcmp`, and the fuel
-- is more than the number of its nodes, `dict_get` is the look-up in the map that the tree
-- stands for: it ends, returns -1 exactly when no node has the key, and else the value of the
-- only node that has it.
pub dict_get-Maps :
    (h : Nodes) (t : Shape) (root fuel : ℕ) (key : Bytes)
    → Stands h root t
    → IsOrdered h t
    → size t < fuel
    → Maps h t key (dict_get fuel h root key)
unfolding dict_get
dict_get-Maps h t root fuel key stands ordered enough =
    got (find_tree_node-Finds h t root fuel key stands ordered enough)
  where
    got :
        {o : Option ℕ}
        → Finds h t key o
        → Maps h t key
            (elim o [ none ↦ none | some p ↦ some (if p == 0 then none else some (h.value p)) ])
    got (no_node f) = missing f
    got (node p n i k only) = rw (==_differs p 0 n) (holds p i k only)
