-- ===== src/Base/Zeros.antt =====
-- Arrays of bytes with and without a zero.
use mathlib.Core.Logic.{◌≢◌, inl, inr}
use Prim.Native.Nat.{ℕ}
use mathlib.Core.Bool.{Bool, true, false}
use mathlib.Core.List.{[], ◌∷◌, ◌++◌}
use mathlib.Core.Path.{◌≡◌, refl, ap, ◌∙◌}
use native.Mathlib.Omega.{arith}
use iu7_pvs_cp.Base.Tests.{◌==◌, ==_differs, Bool-cases, if◌then◌else◌}
use iu7_pvs_cp.Base.Text.{Bytes, until_zero}

-- No zero byte.
abbrev pub NoZero : Bytes → Type 0
NoZero [] = Unit {0}
NoZero (c ∷ cs) = (c ≢ 0) × NoZero cs

pub NoZero-append : (a b : Bytes) → NoZero (a ++ b) → NoZero a × NoZero b
NoZero-append [] b h = (tt, h)
NoZero-append (c ∷ cs) b (n, h) = let (l, r) = NoZero-append cs b h in ((n, l), r)

pub until_zero-NoZero : (str : Bytes) → NoZero str → until_zero str ≡ str
unfolding until_zero
until_zero-NoZero [] h = refl
until_zero-NoZero (c ∷ cs) (n, h) = rw (==_differs c 0 n) (ap (◌∷◌ c) (until_zero-NoZero cs h))

-- What stands before the zero stays.
pub until_zero-append : (a b : Bytes) → NoZero a → until_zero (a ++ b) ≡ a ++ until_zero b
unfolding until_zero
until_zero-append [] b h = refl
until_zero-append (c ∷ cs) b (n, h) = rw (==_differs c 0 n) (ap (◌∷◌ c) (until_zero-append cs b h))

pub NoZero-until_zero : (s : Bytes) → until_zero s ≡ s → NoZero s
unfolding until_zero
NoZero-until_zero [] e = tt
NoZero-until_zero (c ∷ cs) e = elim (Bool-cases (c == 0)) [
  | inl z ↦ absurd (empty c cs (if_true (c == 0) z ∙ e))
  | inr n ↦ (nonzero c n, NoZero-until_zero cs (tail (if_false (c == 0) n ∙ e)))
]
  where
    if_true : (b : Bool) → b ≡ true → [] ≡ (if b then [] else c ∷ until_zero cs)
    if_true true e = refl
    if_true false e = absurd (cc e)

    if_false : (b : Bool) → b ≡ false → c ∷ until_zero cs ≡ (if b then [] else c ∷ until_zero cs)
    if_false false e = refl
    if_false true e = absurd (cc e)

    empty : (d : ℕ) (ds : Bytes) → [] ≢ d ∷ ds
    empty d ds e = cc e

    nonzero : (d : ℕ) → (d == 0) ≡ false → d ≢ 0
    nonzero d n i = ground arith

    tail : {x y : ℕ} {xs ys : Bytes} → (x ∷ xs) ≡ (y ∷ ys) → xs ≡ ys
    tail e = cc e
