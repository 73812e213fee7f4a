-- ===== src/Tree/Leaves/Search.antt =====
-- The search of common/src/tree.c behind the insertion of a leaf.
use iu7_pvs_cp.Base.{
  ℕ, zero, suc, Bool, true, false, not, ◌&&◌, some, Bytes, ◌==◌, if◌then◌else◌, ◌≡◌, ◌≢◌, ◌⊎◌, inl,
  inr, refl, ap, sym, ◌∙◌, ==_iff,
}
use iu7_pvs_cp.Tree.{Nodes}
use iu7_pvs_cp.Tree.Dict.{
  Sign, negative, equal, positive, strcmp, find_tree_node, Place, left_of, right_of, find_place,
}
use iu7_pvs_cp.Tree.First.{strcmp_self}
use iu7_pvs_cp.Tree.Ordered.{strcmp-equal}
use iu7_pvs_cp.Tree.Updates.{IsFresh}
use iu7_pvs_cp.Tree.Leaves.{
  child_of, child, Grown, below, is_null, find_tree_node-null, find_tree_node-turn, find_place-turn,
  find_tree_node-zero, find_place-zero, find_place-null, some_same, left_is, right_is,
  taken-ne_child_of,
}

module _ (h g : Nodes) (side : Bool) (pp node : ℕ) (new_key : Bytes)
    (grown : Grown h g side pp node new_key) (node_set : node ≢ 0) where
  -- The search reaches the leaf.
  leaf_found : (fuel : ℕ) → find_tree_node (suc fuel) g node new_key ≡ some node
  leaf_found fuel =
      find_tree_node-turn fuel g node new_key equal node_set
        (ap (λ k. strcmp k new_key) grown.node_key ∙ strcmp_self new_key)

  -- The search for another key ends behind the leaf.
  leaf_passed :
      (fuel : ℕ) (other : Bytes)
      → other ≢ new_key
      → find_tree_node (suc (suc fuel)) g node other ≡ some 0
  leaf_passed fuel other n = turned (strcmp (g.key node) other) refl
    where
      turned :
          (s : Sign)
          → strcmp (g.key node) other ≡ s
          → find_tree_node (suc (suc fuel)) g node other ≡ some 0
      turned positive e =
          find_tree_node-turn (suc fuel) g node other positive node_set e
          ∙ find_tree_node-null fuel g (g.left node) other grown.node_left
      turned negative e =
          find_tree_node-turn (suc fuel) g node other negative node_set e
          ∙ find_tree_node-null fuel g (g.right node) other grown.node_right
      turned equal e = absurd (n (sym (sym grown.node_key ∙ strcmp-equal (g.key node) other e)))

  -- The pointer that is changed was NULL.
  empty_left :
      (side : Bool) (p : ℕ) → child h side pp ≡ 0 → (side && (p == pp)) ≡ true → h.left p ≡ 0
  empty_left true p e b = ap h.left ((==_iff p pp).0 b) ∙ e
  empty_left false p e b = absurd (cc b)

  empty_right :
      (side : Bool) (p : ℕ) → child h side pp ≡ 0 → (not side && (p == pp)) ≡ true → h.right p ≡ 0
  empty_right false p e b = ap h.right ((==_iff p pp).0 b) ∙ e
  empty_right true p e b = absurd (cc b)

  other_behind :
      (fuel q : ℕ) (other : Bytes) (r : ℕ)
      → other ≢ new_key
      → find_tree_node fuel h q other ≡ some r
      → q ≡ 0
      → find_tree_node (suc fuel) g node other ≡ some r
  unfolding find_tree_node
  other_behind zero q other r n e z = absurd (cc e)
  other_behind (suc fuel) q other r n e z =
      leaf_passed fuel other n ∙ sym (find_tree_node-null fuel h q other z) ∙ e

  other_step :
      (fuel q q' : ℕ) (other : Bytes) (r : ℕ) (b : Bool)
      → other ≢ new_key
      → (b ≡ true → q ≡ 0)
      → q' ≡ (if b then node else q)
      → find_tree_node fuel h q other ≡ some r
      → find_tree_node (suc fuel) g q other ≡ some r
      → find_tree_node (suc fuel) g q' other ≡ some r
  other_step fuel q q' other r true n z c e again =
      ap (λ x. find_tree_node (suc fuel) g x other) c ∙ other_behind fuel q other r n e (z refl)
  other_step fuel q q' other r false n z c e again =
      ap (λ x. find_tree_node (suc fuel) g x other) c ∙ again

  pub other_kept :
      (fuel p : ℕ) (other : Bytes) (r : ℕ)
      → other ≢ new_key
      → child h side pp ≡ 0
      → IsFresh node p h
      → find_tree_node fuel h p other ≡ some r
      → find_tree_node (suc fuel) g p other ≡ some r
  other_kept zero p other r n z f e = absurd (find_tree_node-zero h p other r e)
  other_kept (suc fuel) p other r n z f e = elim (is_null p) [
    | inl null ↦
        find_tree_node-null (suc fuel) g p other null
        ∙ sym (find_tree_node-null fuel h p other null)
        ∙ e
    | inr m ↦
        turned (strcmp (h.key p) other) m refl
          (λ q m' e'. other_kept fuel q other r n z (below node p q h f m') e')
  ]
    where
      turned :
          (s : Sign)
          → p ≢ 0
          → strcmp (h.key p) other ≡ s
          → ((q : ℕ)
              → q ≢ node
              → find_tree_node fuel h q other ≡ some r
              → find_tree_node (suc fuel) g q other ≡ some r)
          → find_tree_node (suc (suc fuel)) g p other ≡ some r
      turned positive m c lower =
          let e' = sym (find_tree_node-turn fuel h p other positive m c) ∙ e in
          find_tree_node-turn (suc fuel) g p other positive m
            (ap (λ k. strcmp k other) (grown.key p f.not_root) ∙ c)
          ∙ other_step fuel (h.left p) (g.left p) other r (side && (p == pp)) n
              (empty_left side p z) (grown.left p f.not_root) e'
              (lower (h.left p) (f.not_left p) e')
      turned negative m c lower =
          let e' = sym (find_tree_node-turn fuel h p other negative m c) ∙ e in
          find_tree_node-turn (suc fuel) g p other negative m
            (ap (λ k. strcmp k other) (grown.key p f.not_root) ∙ c)
          ∙ other_step fuel (h.right p) (g.right p) other r (not side && (p == pp)) n
              (empty_right side p z) (grown.right p f.not_root) e'
              (lower (h.right p) (f.not_right p) e')
      turned equal m c lower =
          find_tree_node-turn (suc fuel) g p other equal m
            (ap (λ k. strcmp k other) (grown.key p f.not_root) ∙ c)
          ∙ sym (find_tree_node-turn fuel h p other equal m c)
          ∙ e

  reach_step :
      (fuel q q' : ℕ) (b : Bool)
      → q' ≡ (if b then node else q)
      → (b ≡ true) ⊎ (find_tree_node (suc fuel) g q new_key ≡ some node)
      → find_tree_node (suc fuel) g q' new_key ≡ some node
  reach_step fuel q q' true c found =
      ap (λ x. find_tree_node (suc fuel) g x new_key) c ∙ leaf_found fuel
  reach_step fuel q q' false c (inl e) = absurd (cc e)
  reach_step fuel q q' false c (inr found) =
      ap (λ x. find_tree_node (suc fuel) g x new_key) c ∙ found

  -- What `find_place` returned is where the search reaches the leaf.
  pub leaf_reached :
      (fuel p : ℕ) (place : Place)
      → IsFresh node p h
      → find_place fuel h p place new_key ≡ some (child_of side pp)
      → ((p ≡ 0) × (place ≡ child_of side pp))
        ⊎ ((child h side pp ≡ 0) × (find_tree_node (suc fuel) g p new_key ≡ some node))
  leaf_reached zero p place f e = absurd (find_place-zero h p place new_key _ e)
  leaf_reached (suc fuel) p place f e = elim (is_null p) [
    | inl null ↦ inl (null, some_same (sym (find_place-null fuel h p place new_key null) ∙ e))
    | inr m ↦
        turned (strcmp (h.key p) new_key) m refl
          (λ q place' m' e'. leaf_reached fuel q place' (below node p q h f m') e')
  ]
    where
      turned :
          (s : Sign)
          → p ≢ 0
          → strcmp (h.key p) new_key ≡ s
          → ((q : ℕ) (place' : Place)
              → q ≢ node
              → find_place fuel h q place' new_key ≡ some (child_of side pp)
              → ((q ≡ 0) × (place' ≡ child_of side pp))
                ⊎ ((child h side pp ≡ 0) × (find_tree_node (suc fuel) g q new_key ≡ some node)))
          → ((p ≡ 0) × (place ≡ child_of side pp))
            ⊎ ((child h side pp ≡ 0) × (find_tree_node (suc (suc fuel)) g p new_key ≡ some node))
      turned positive m c lower =
          let at_p =
            find_tree_node-turn (suc fuel) g p new_key positive m
              (ap (λ k. strcmp k new_key) (grown.key p f.not_root) ∙ c) in
          let found : ((side && (p == pp)) ≡ true)
                ⊎ (find_tree_node (suc fuel) g (h.left p) new_key ≡ some node)
              → find_tree_node (suc (suc fuel)) g p new_key ≡ some node =
            λ d.
              at_p
              ∙ reach_step fuel (h.left p) (g.left p) (side && (p == pp)) (grown.left p f.not_root)
                  d in
          elim (lower (h.left p) (left_of p) (f.not_left p)
            (sym (find_place-turn fuel h p place new_key positive m c) ∙ e)) [
              | inl (z, w) ↦
                  let (s, i) = left_is side p pp w in
                  inr (
                    ap (λ b. child h b pp) s ∙ ap h.left (sym i) ∙ z,
                    found (inl (ap (λ b. b && (p == pp)) s ∙ (==_iff p pp).1 i)),
                  )
              | inr (z, w) ↦ inr (z, found (inr w))
            ]
      turned negative m c lower =
          let at_p =
            find_tree_node-turn (suc fuel) g p new_key negative m
              (ap (λ k. strcmp k new_key) (grown.key p f.not_root) ∙ c) in
          let found : ((not side && (p == pp)) ≡ true)
                ⊎ (find_tree_node (suc fuel) g (h.right p) new_key ≡ some node)
              → find_tree_node (suc (suc fuel)) g p new_key ≡ some node =
            λ d.
              at_p
              ∙ reach_step fuel (h.right p) (g.right p) (not side && (p == pp))
                  (grown.right p f.not_root) d in
          elim (lower (h.right p) (right_of p) (f.not_right p)
            (sym (find_place-turn fuel h p place new_key negative m c) ∙ e)) [
              | inl (z, w) ↦
                  let (s, i) = right_is side p pp w in
                  inr (
                    ap (λ b. child h b pp) s ∙ ap h.right (sym i) ∙ z,
                    found (inl (ap (λ b. not b && (p == pp)) s ∙ (==_iff p pp).1 i)),
                  )
              | inr (z, w) ↦ inr (z, found (inr w))
            ]
      turned equal m c lower = absurd (
          taken-ne_child_of side p pp
            (some_same (sym (find_place-turn fuel h p place new_key equal m c) ∙ e)))
