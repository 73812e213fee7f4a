-- ===== src/LinkedList/Ring.antt =====
-- Chains of elements and the frame rules of the two writes.
use iu7_pvs_cp.Base.{ℕ, List, [], ◌∷◌, ◌++◌, ◌≡◌, ◌≢◌, arith, Fresh, Distinct}
use iu7_pvs_cp.LinkedList.{Links, set_next, set_prev}

-- From `a` the links lead through `xs` to `b`, and back.
abbrev pub Chain : Links → ℕ → List ℕ → ℕ → Type 0
Chain h a [] b = (h.next a ≡ b) × (h.prev b ≡ a)
Chain h a (x ∷ xs) b = (h.next a ≡ x) × (h.prev x ≡ a) × Chain h x xs b

-- The circular list of `head` and, behind it, `xs`.
pub record IsRing (h : Links) (head : ℕ) (xs : List ℕ) : Type 0 where
  pub chain : Chain h head xs head
  pub distinct : Distinct (head ∷ xs)

pub Chain-set_next :
    (h : Links) (p v a : ℕ) (xs : List ℕ) (b : ℕ)
    → Fresh p (a ∷ xs)
    → Chain h a xs b
    → Chain (set_next h p v) a xs b
Chain-set_next h p v a [] b f c = ground arith
Chain-set_next h p v a (x ∷ xs) b f c = (ground arith, c.1, Chain-set_next h p v x xs b f.1 c.2)

pub Chain-set_prev :
    (h : Links) (p v a : ℕ) (xs : List ℕ) (b : ℕ)
    → Fresh p xs
    → p ≢ b
    → Chain h a xs b
    → Chain (set_prev h p v) a xs b
Chain-set_prev h p v a [] b f ne c = ground arith
Chain-set_prev h p v a (x ∷ xs) b f ne c =
    (c.0, ground arith, Chain-set_prev h p v x xs b f.1 ne c.2)

pub Chain-split :
    (h : Links) (a : ℕ) (xs : List ℕ) (p : ℕ) (ys : List ℕ) (b : ℕ)
    → Chain h a (xs ++ p ∷ ys) b
    → Chain h a xs p × Chain h p ys b
Chain-split h a [] p ys b c = ((c.0, c.1), c.2)
Chain-split h a (x ∷ xs) p ys b c = let (l, r) = Chain-split h x xs p ys b c.2 in ((c.0, c.1, l), r)

pub Chain-join :
    (h : Links) (a : ℕ) (xs : List ℕ) (p : ℕ) (ys : List ℕ) (b : ℕ)
    → Chain h a xs p
    → Chain h p ys b
    → Chain h a (xs ++ p ∷ ys) b
Chain-join h a [] p ys b l r = (l.0, l.1, r)
Chain-join h a (x ∷ xs) p ys b l r = (l.0, l.1, Chain-join h x xs p ys b l.2 r)
