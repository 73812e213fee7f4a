-- ===== src/Tree/Updates.antt =====
-- Setting a key that a dictionary of common/src/tree.c has already.
use iu7_pvs_cp.Base.{
  ◌<◌, ℕ, zero, suc, Bool, true, false, Option, some, Bytes, length, take, take_all, ◌==◌,
  if◌then◌else◌, ◌≡◌, ◌≢◌, refl, ap, sym, ◌∙◌, subst, arith, ==_differs, ==_self,
}
use iu7_pvs_cp.Tree.{Nodes, put, make_tree_node, fixed}
use iu7_pvs_cp.Tree.Dict.{
  Sign, negative, equal, positive, strcmp, turn, find_tree_node, Place, taken, at_root, left_of,
  right_of, find_place, put_at, at_place, insert_tree_node, dict_set, dict_get,
}

-- `malloc` gives memory that no pointer of the tree leads to.
pub record IsFresh (node root : ℕ) (h : Nodes) : Type 0 where
  pub not_root : root ≢ node
  pub not_left : (p : ℕ) → h.left p ≢ node
  pub not_right : (p : ℕ) → h.right p ≢ node

pub put-other : {A : Type 0} → (f : ℕ → A) (p : ℕ) (v : A) (q : ℕ) → q ≢ p → put f p v q ≡ f q
put-other f p v q h = rw (==_differs q p h) refl

pub put-same : {A : Type 0} → (f : ℕ → A) (p : ℕ) (v : A) → put f p v p ≡ v
put-same f p v = rw (==_self p) refl

-- A search does not see a new node.
find_tree_node-make_tree_node :
    (fuel : ℕ) (h : Nodes) (node p : ℕ) (new_key : Bytes) (value : ℕ) (key : Bytes)
    → IsFresh node p h
    → find_tree_node fuel (make_tree_node h node new_key value) p key ≡ find_tree_node fuel h p key
unfolding find_tree_node make_tree_node
find_tree_node-make_tree_node zero h node p new_key value key f = refl
find_tree_node-make_tree_node (suc fuel) h node p new_key value key f =
    let l =
      find_tree_node-make_tree_node fuel h node (h.left p) new_key value key
        (record { not_root = f.not_left p; not_left = f.not_left; not_right = f.not_right }) in
    let r =
      find_tree_node-make_tree_node fuel h node (h.right p) new_key value key
        (record { not_root = f.not_right p; not_left = f.not_left; not_right = f.not_right }) in
    rw (put-other h.key node (take 128 new_key) p f.not_root) (
      rw (put-other h.left node 0 p f.not_root)
        (rw (put-other h.right node 0 p f.not_root) (rw l (rw r refl))))

-- A search does not read the values.
find_tree_node-value :
    (fuel : ℕ) (h : Nodes) (value : ℕ → ℕ) (p : ℕ) (key : Bytes)
    → find_tree_node fuel (record h { value = value }) p key ≡ find_tree_node fuel h p key
unfolding find_tree_node
find_tree_node-value zero h value p key = refl
find_tree_node-value (suc fuel) h value p key =
    rw (find_tree_node-value fuel h value (h.left p) key)
      (rw (find_tree_node-value fuel h value (h.right p) key) refl)

turn-taken :
    {x y : Option ℕ} {x' y' : Option Place} (b : Bool) (s : Sign) (p a : ℕ) (place : Place)
    → (x ≡ some a → x' ≡ some (taken a))
    → (y ≡ some a → y' ≡ some (taken a))
    → a ≢ 0
    → (if b then some 0 else turn s x y (some p)) ≡ some a
    → (if b then some place else turn s x' y' (some (taken p))) ≡ some (taken a)
turn-taken true s p a place hx hy n e = absurd (n (sym (cc e)))
turn-taken false positive p a place hx hy n e = hx e
turn-taken false negative p a place hx hy n e = hy e
turn-taken false equal p a place hx hy n e = cc

-- What the insertion finds of a key that the search finds.
find_place-find_tree_node :
    (fuel : ℕ) (h : Nodes) (p : ℕ) (place : Place) (key : Bytes) (a : ℕ)
    → find_tree_node fuel h p key ≡ some a
    → a ≢ 0
    → find_place fuel h p place key ≡ some (taken a)
unfolding find_tree_node find_place
find_place-find_tree_node zero h p place key a e n = absurd (cc)
find_place-find_tree_node (suc fuel) h p place key a e n =
    turn-taken (p == 0) (strcmp (h.key p) key) p a place
      (λ l. find_place-find_tree_node fuel h (h.left p) (left_of p) key a l n)
      (λ r. find_place-find_tree_node fuel h (h.right p) (right_of p) key a r n) n e

-- The value that `dict_get` gives of the node that the search finds.
pub dict_get-found :
    (fuel : ℕ) (h : Nodes) (root : ℕ) (key : Bytes) {a : ℕ}
    → find_tree_node fuel h root key ≡ some a
    → a ≢ 0
    → dict_get fuel h root key ≡ some (some (h.value a))
unfolding dict_get
dict_get-found fuel h root key {a} e n = rw (e, dict_get) (rw (==_differs a 0 n) refl)

-- The nodes behind `dict_set` of a key that is there.
abbrev pub updated : Nodes → ℕ → Bytes → ℕ → ℕ → Nodes
updated h node key value a =
    let g = make_tree_node h node key value in record g { value = put g.value a (g.value node) }

pub made_key :
    (h : Nodes) (node : ℕ) (key : Bytes) (value : ℕ)
    → length key < 128
    → (make_tree_node h node key value).key node ≡ key
unfolding make_tree_node
made_key h node key value l = put-same h.key node (take 128 key) ∙ take_all 128 key (omega arith)

dict_set-found :
    (fuel : ℕ) (node : ℕ) (h : Nodes) (root : ℕ) (key : Bytes) (value a : ℕ)
    → IsFresh node root h
    → length key < 128
    → find_tree_node fuel h root key ≡ some a
    → a ≢ 0
    → dict_set fuel node h root key value ≡ fixed (updated h node key value a) root
unfolding dict_set insert_tree_node put_at
dict_set-found fuel node h root key value a f l e n =
    let g = make_tree_node h node key value in
    let k : g.key node ≡ key = made_key h node key value l in
    let s =
      find_place-find_tree_node fuel g root at_root key a
        (find_tree_node-make_tree_node fuel h node root key value key f ∙ e) n in
    ap (λ x. at_place (find_place fuel g root at_root x) (put_at fuel g root node)) k
    ∙ ap (λ o. at_place o (put_at fuel g root node)) s

turn-ne_node :
    {x y : Option ℕ} (b : Bool) (s : Sign) (p a node : ℕ)
    → (x ≡ some a → a ≢ node)
    → (y ≡ some a → a ≢ node)
    → p ≢ node
    → a ≢ 0
    → (if b then some 0 else turn s x y (some p)) ≡ some a
    → a ≢ node
turn-ne_node true s p a node hx hy hp n e = absurd (n (sym (cc e)))
turn-ne_node false positive p a node hx hy hp n e = hx e
turn-ne_node false negative p a node hx hy hp n e = hy e
turn-ne_node false equal p a node hx hy hp n e = subst (λ q. q ≢ node) (cc e) hp

-- The search finds no new node.
pub find_tree_node-ne_node :
    (fuel : ℕ) (h : Nodes) (node p : ℕ) (key : Bytes) (a : ℕ)
    → IsFresh node p h
    → find_tree_node fuel h p key ≡ some a
    → a ≢ 0
    → a ≢ node
unfolding find_tree_node
find_tree_node-ne_node zero h node p key a f e n = absurd (cc)
find_tree_node-ne_node (suc fuel) h node p key a f e n =
    turn-ne_node (p == 0) (strcmp (h.key p) key) p a node
      (λ l.
        find_tree_node-ne_node fuel h node (h.left p) key a
          (record { not_root = f.not_left p; not_left = f.not_left; not_right = f.not_right }) l n)
      (λ r.
        find_tree_node-ne_node fuel h node (h.right p) key a
          (record { not_root = f.not_right p; not_left = f.not_left; not_right = f.not_right }) r n)
      f.not_root n e

find_tree_node-updated :
    (fuel : ℕ) (h : Nodes) (node root : ℕ) (new_key : Bytes) (value a : ℕ) (key : Bytes)
    → IsFresh node root h
    → find_tree_node fuel (updated h node new_key value a) root key ≡ find_tree_node fuel h root key
find_tree_node-updated fuel h node root new_key value a key f =
    find_tree_node-value fuel (make_tree_node h node new_key value) _ root key
    ∙ find_tree_node-make_tree_node fuel h node root new_key value key f

updated-same :
    (h : Nodes) (node : ℕ) (key : Bytes) (value a : ℕ)
    → (updated h node key value a).value a ≡ value
unfolding make_tree_node
updated-same h node key value a =
    put-same (put h.value node value) a (put h.value node value node) ∙ put-same h.value node value

updated-other :
    (h : Nodes) (node : ℕ) (key : Bytes) (value a b : ℕ)
    → b ≢ node
    → b ≢ a
    → (updated h node key value a).value b ≡ h.value b
unfolding make_tree_node
updated-other h node key value a b n m =
    put-other (put h.value node value) a (put h.value node value node) b m
    ∙ put-other h.value node value b n

-- The part of the theorem below that is about the key itself.
pub dict_set-again :
    (fuel node : ℕ) (h : Nodes) (root : ℕ) (key : Bytes) (value a : ℕ)
    → IsFresh node root h
    → length key < 128
    → find_tree_node fuel h root key ≡ some a
    → a ≢ 0
    → (dict_set fuel node h root key value ≡ fixed (updated h node key value a) root)
      × (dict_get fuel (updated h node key value a) root key ≡ some (some value))
dict_set-again fuel node h root key value a f l e n = (
  dict_set-found fuel node h root key value a f l e n,
  dict_get-found fuel (updated h node key value a) root key
        (find_tree_node-updated fuel h node root key value a key f ∙ e) n
      ∙ ap (λ v. some (some v)) (updated-same h node key value a),
)

-- When `malloc` gives a node that no pointer leads to, the key has fewer than 128 bytes, and the
-- search finds it, `dict_set` keeps the root, `dict_get` of the key then gives the new value,
-- and of another key that the search finds at another node what it gave before.
pub dict_get-dict_set :
    (fuel node : ℕ) (h : Nodes) (root : ℕ) (key : Bytes) (value a : ℕ) (other : Bytes) (b : ℕ)
    → IsFresh node root h
    → length key < 128
    → find_tree_node fuel h root key ≡ some a
    → a ≢ 0
    → find_tree_node fuel h root other ≡ some b
    → b ≢ 0
    → b ≢ a
    → (h' : Nodes) × (dict_set fuel node h root key value ≡ fixed h' root)
      × (dict_get fuel h' root key ≡ some (some value))
      × (dict_get fuel h' root other ≡ dict_get fuel h root other)
dict_get-dict_set fuel node h root key value a other b f l e n eb nb ne = (
  updated h node key value a,
  (dict_set-again fuel node h root key value a f l e n).0,
  (dict_set-again fuel node h root key value a f l e n).1,
  dict_get-found fuel (updated h node key value a) root other
        (find_tree_node-updated fuel h node root key value a other f ∙ eb) nb
      ∙ ap (λ v. some (some v))
          (updated-other h node key value a b
            (find_tree_node-ne_node fuel h node root other b f eb nb) ne)
      ∙ sym (dict_get-found fuel h root other eb nb),
)
