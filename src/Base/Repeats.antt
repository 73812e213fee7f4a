-- ===== src/Base/Repeats.antt =====
-- Values that a list does not hold, and lists with no value twice.
use Prim.Native.Nat.{ℕ}
use mathlib.Core.List.{List, [], ◌∷◌, ◌++◌}
use mathlib.Core.Logic.{◌≢◌}
use mathlib.Core.Path.{sym}

abbrev pub Fresh : ℕ → List ℕ → Type 0
Fresh p [] = Unit {0}
Fresh p (x ∷ xs) = (p ≢ x) × Fresh p xs

abbrev pub Distinct : List ℕ → Type 0
Distinct [] = Unit {0}
Distinct (x ∷ xs) = Fresh x xs × Distinct xs

pub Fresh-append : (p : ℕ) (xs ys : List ℕ) → Fresh p xs → Fresh p ys → Fresh p (xs ++ ys)
Fresh-append p [] ys h k = k
Fresh-append p (x ∷ xs) ys h k = (h.0, Fresh-append p xs ys h.1 k)

pub Fresh-front : (p : ℕ) (xs ys : List ℕ) → Fresh p (xs ++ ys) → Fresh p xs
Fresh-front p [] ys h = tt
Fresh-front p (x ∷ xs) ys h = (h.0, Fresh-front p xs ys h.1)

pub Fresh-back : (p : ℕ) (xs ys : List ℕ) → Fresh p (xs ++ ys) → Fresh p ys
Fresh-back p [] ys h = h
Fresh-back p (x ∷ xs) ys h = Fresh-back p xs ys h.1

-- The value behind `xs` is not in `xs`.
pub Distinct-middle : (xs : List ℕ) (y : ℕ) (ys : List ℕ) → Distinct (xs ++ y ∷ ys) → Fresh y xs
Distinct-middle [] y ys h = tt
Distinct-middle (x ∷ xs) y ys h =
    (λ e. (Fresh-back x xs (y ∷ ys) h.0).0 (sym e), Distinct-middle xs y ys h.1)

pub Distinct-back : (xs ys : List ℕ) → Distinct (xs ++ ys) → Distinct ys
Distinct-back [] ys h = h
Distinct-back (x ∷ xs) ys h = Distinct-back xs ys h.1

pub Distinct-insert :
    (xs : List ℕ) (p : ℕ) (ys : List ℕ)
    → Distinct (xs ++ ys)
    → Fresh p (xs ++ ys)
    → Distinct (xs ++ p ∷ ys)
Distinct-insert [] p ys d h = (h, d)
Distinct-insert (x ∷ xs) p ys d h = (
  Fresh-append x xs (p ∷ ys) (Fresh-front x xs ys d.0) ((λ e. h.0 (sym e)), Fresh-back x xs ys d.0),
  Distinct-insert xs p ys d.1 h.1,
)

pub Distinct-drop :
    (xs : List ℕ) (p : ℕ) (ys : List ℕ) → Distinct (xs ++ p ∷ ys) → Distinct (xs ++ ys)
Distinct-drop [] p ys d = d.1
Distinct-drop (x ∷ xs) p ys d = (
  Fresh-append x xs ys (Fresh-front x xs (p ∷ ys) d.0) (Fresh-back x xs (p ∷ ys) d.0).1,
  Distinct-drop xs p ys d.1,
)
