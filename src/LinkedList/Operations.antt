-- ===== src/LinkedList/Operations.antt =====
-- What the operations of list.h do to a circular list.
use iu7_pvs_cp.Base.{
  ℕ, suc, some, List, [], ◌∷◌, ◌++◌, ◌≡◌, ◌≢◌, sym, subst, ap, ◌∙◌, arith, Fresh, Distinct,
  Fresh-front, Fresh-back, Distinct-middle, Distinct-back, Distinct-insert, Distinct-drop, length,
  append_assoc,
}
use iu7_pvs_cp.LinkedList.{
  Links, list_init, link_between, list_add, list_add_tail, foreach_from, list_foreach,
}
use iu7_pvs_cp.LinkedList.Ring.{
  Chain, IsRing, Chain-set_next, Chain-set_prev, Chain-split, Chain-join,
}

-- A new list is its head alone.
pub list_init-IsRing : (h : Links) (head : ℕ) → IsRing (list_init h head) head []
unfolding list_init
list_init-IsRing h head = record { chain = (ground arith, ground arith); distinct = (tt, tt) }

-- The four writes of `link_between` leave a chain alone that they do not touch.
link_between-Chain :
    (h : Links) (p q e a : ℕ) (xs : List ℕ) (b : ℕ)
    → Fresh p (a ∷ xs)
    → Fresh e (a ∷ xs)
    → Fresh q xs
    → e ≢ b
    → q ≢ b
    → Chain h a xs b
    → Chain (link_between h p q e) a xs b
unfolding link_between
link_between-Chain h p q e a xs b fp fe fq eb qb c = Chain-set_prev _ q e a xs b fq qb (
    Chain-set_next _ p e a xs b fp
      (Chain-set_next _ e q a xs b fe (Chain-set_prev h e p a xs b fe.1 eb c)))

link_between-links :
    (h : Links) (p q e : ℕ)
    → e ≢ p
    → e ≢ q
    → ((link_between h p q e).next p ≡ e)
      × ((link_between h p q e).prev e ≡ p)
      × ((link_between h p q e).next e ≡ q)
      × ((link_between h p q e).prev q ≡ e)
unfolding link_between
link_between-links h p q e ep eq = ground arith

-- The element behind `p` in a chain that ends in `b`.
abbrev first_or : List ℕ → ℕ → ℕ
first_or [] b = b
first_or (z ∷ zs) b = z

next-first_or :
    (h : Links) (p : ℕ) (zs : List ℕ) (b : ℕ) → Chain h p zs b → h.next p ≡ first_or zs b
next-first_or h p [] b c = c.0
next-first_or h p (z ∷ zs) b c = c.0

link_between-after :
    (h : Links) (p e : ℕ) (zs : List ℕ) (b : ℕ)
    → Chain h p zs b
    → Distinct zs
    → Fresh p zs
    → Fresh b zs
    → Fresh e (p ∷ zs)
    → e ≢ b
    → Chain (link_between h p (first_or zs b) e) p (e ∷ zs) b
link_between-after h p e [] b c d fp fb fe eb =
    let l = link_between-links h p b e fe.0 eb in (l.0, l.1, (l.2, l.3))
link_between-after h p e (z ∷ zs) b c d fp fb fe eb =
    let l = link_between-links h p z e fe.0 fe.1.0 in
    let kept = link_between-Chain h p z e z zs b fp fe.1 d.0 eb (λ k. fb.0 (sym k)) c.2 in
    (l.0, l.1, (l.2, l.3, kept))

-- If the list of `head` is circular and holds `xs`, and `e` is in none of them, then behind
-- `list_add` of `e` to the head it is circular and holds `e` and then `xs`.
pub list_add-IsRing :
    (h : Links) (head e : ℕ) (xs : List ℕ)
    → IsRing h head xs
    → Fresh e (head ∷ xs)
    → IsRing (list_add h head e) head (e ∷ xs)
unfolding list_add
list_add-IsRing h head e xs r f =
    let d = r.distinct in
    record {
      chain =
          subst (λ q. Chain (link_between h head q e) head (e ∷ xs) head)
            (sym (next-first_or h head xs head r.chain))
            (link_between-after h head e xs head r.chain d.1 d.0 d.0 f f.0);
      distinct = (((λ k. f.0 (sym k)), d.0), (f.1, d.1));
    }

link_between-before :
    (h : Links) (a p e : ℕ) (ys zs : List ℕ)
    → Distinct (a ∷ (ys ++ p ∷ zs))
    → Fresh e (a ∷ (ys ++ p ∷ zs))
    → Chain h a ys p
    → Chain (link_between h p (first_or zs a) e) a ys p
link_between-before h a p e ys zs d f c =
    let fe = Fresh-front e ys (p ∷ zs) f.1 in
    let fa = Fresh-back a ys (p ∷ zs) d.0 in
    let ep = (Fresh-back e ys (p ∷ zs) f.1).0 in
    link_between-Chain h p (first_or zs a) e a ys p
      ((λ k. fa.0 (sym k)), Distinct-middle ys p zs d.1) (f.0, fe) (outside zs d) ep (differs zs d)
      c
  where
    outside : (zs : List ℕ) → Distinct (a ∷ (ys ++ p ∷ zs)) → Fresh (first_or zs a) ys
    outside [] d = Fresh-front a ys (p ∷ []) d.0
    outside (z ∷ zs) d = Distinct-middle ys z zs (Distinct-drop ys p (z ∷ zs) d.1)

    differs : (zs : List ℕ) → Distinct (a ∷ (ys ++ p ∷ zs)) → first_or zs a ≢ p
    differs [] d = (Fresh-back a ys (p ∷ []) d.0).0
    differs (z ∷ zs) d = λ k. (Distinct-back ys (p ∷ z ∷ zs) d.1).0.0 (sym k)

-- If the list of `head` is circular, `p` is one of its elements and `e` is none of them, then
-- behind `list_add` of `e` to `p` it is circular and holds `e` right behind `p`.
pub list_add-IsRing_behind :
    (h : Links) (head p e : ℕ) (ys zs : List ℕ)
    → IsRing h head (ys ++ p ∷ zs)
    → Fresh e (head ∷ (ys ++ p ∷ zs))
    → IsRing (list_add h p e) head (ys ++ p ∷ e ∷ zs)
unfolding list_add
list_add-IsRing_behind h head p e ys zs r f =
    let (front, back) = Chain-split h head ys p zs head r.chain in
    let d = r.distinct in
    let dz = Distinct-back ys (p ∷ zs) d.1 in
    let fz = Fresh-back e ys (p ∷ zs) f.1 in
    let fh = Fresh-back head ys (p ∷ zs) d.0 in
    record {
      chain =
          subst (λ q. Chain (link_between h p q e) head (ys ++ p ∷ e ∷ zs) head)
            (sym (next-first_or h p zs head back))
            (Chain-join _ head ys p (e ∷ zs) head (link_between-before h head p e ys zs d f front)
              (link_between-after h p e zs head back dz.1 dz.0 fh.1 fz f.0));
      distinct = subst Distinct (ap (◌∷◌ head) (append_assoc ys (p ∷ []) (e ∷ zs))) (
          Distinct-insert (head ∷ (ys ++ p ∷ [])) e zs
            (subst Distinct (ap (◌∷◌ head) (sym (append_assoc ys (p ∷ []) zs))) d)
            (subst (Fresh e) (ap (◌∷◌ head) (sym (append_assoc ys (p ∷ []) zs))) f));
    }

list_add_tail-eq-list_add :
    (h : Links) (head p e : ℕ)
    → h.prev head ≡ p
    → h.next p ≡ head
    → list_add_tail h head e ≡ list_add h p e
unfolding list_add_tail list_add
list_add_tail-eq-list_add h head p e l n =
    ap (λ q. link_between h q head e) l ∙ ap (λ q. link_between h p q e) (sym n)

-- A list is empty or has a last element.
data Snoc : List ℕ → Type 0 where
  empty : Snoc []
  last : (xs : List ℕ) (x : ℕ) → Snoc (xs ++ x ∷ [])

Snoc-of : (xs : List ℕ) → Snoc xs
Snoc-of [] = empty
Snoc-of (x ∷ xs) = Snoc-cons x (Snoc-of xs)
  where
    Snoc-cons : {xs : List ℕ} (x : ℕ) → Snoc xs → Snoc (x ∷ xs)
    Snoc-cons x empty = last [] x
    Snoc-cons x (last xs y) = last (x ∷ xs) y

list_add_tail-Snoc :
    {xs : List ℕ} (h : Links) (head e : ℕ)
    → Snoc xs
    → IsRing h head xs
    → Fresh e (head ∷ xs)
    → IsRing (list_add_tail h head e) head (xs ++ e ∷ [])
list_add_tail-Snoc h head e empty r f =
    subst (λ g. IsRing g head (e ∷ []))
      (sym (list_add_tail-eq-list_add h head head e r.chain.1 r.chain.0))
      (list_add-IsRing h head e [] r f)
list_add_tail-Snoc h head e (last ys p) r f =
    let (front, back) = Chain-split h head ys p [] head r.chain in
    subst (λ g. IsRing g head ((ys ++ p ∷ []) ++ e ∷ []))
      (sym (list_add_tail-eq-list_add h head p e back.1 back.0))
      (subst (IsRing (list_add h p e) head) (sym (append_assoc ys (p ∷ []) (e ∷ [])))
        (list_add-IsRing_behind h head p e ys [] r f))

-- If the list of `head` is circular and holds `xs`, and `e` is in none of them, then behind
-- `list_add_tail` it is circular and holds `xs` and then `e`.
pub list_add_tail-IsRing :
    (h : Links) (head e : ℕ) (xs : List ℕ)
    → IsRing h head xs
    → Fresh e (head ∷ xs)
    → IsRing (list_add_tail h head e) head (xs ++ e ∷ [])
list_add_tail-IsRing h head e xs r f = list_add_tail-Snoc h head e (Snoc-of xs) r f

-- `list_foreach` visits the head and then the others in order, each once.
foreach_from-Chain :
    (xs : List ℕ) (h : Links) (head a : ℕ)
    → Chain h a xs head
    → Fresh head xs
    → foreach_from (suc (length xs)) h head a ≡ some (a ∷ xs)
unfolding foreach_from
foreach_from-Chain [] h head a c f = ground arith
foreach_from-Chain (x ∷ xs) h head a c f =
    let later = foreach_from-Chain xs h head x c.2 f.1 in ground (arith, later)

-- On a circular list `list_foreach` visits the head and then the elements in order, each once;
-- one round for each of them is enough fuel.
pub list_foreach-IsRing :
    (h : Links) (head : ℕ) (xs : List ℕ)
    → IsRing h head xs
    → list_foreach (suc (length xs)) h head ≡ some (head ∷ xs)
unfolding list_foreach
list_foreach-IsRing h head xs r = foreach_from-Chain xs h head head r.chain r.distinct.0
