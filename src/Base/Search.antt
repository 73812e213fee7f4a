-- ===== src/Base/Search.antt =====
-- `strstr(s, "\r\n")` of the C library, as the offset of the first line end.
use Prim.Native.Nat.{ℕ, ◌+◌}
use mathlib.Core.Bool.{Bool, true, false, ◌&&◌}
use mathlib.Core.List.{[], ◌∷◌, ◌++◌}
use mathlib.Core.Option.{Option, none, some}
use mathlib.Core.Path.{◌≡◌, ap}
use mathlib.Core.Logic.{inl, inr}
use native.Mathlib.Omega.{arith}
use iu7_pvs_cp.Base.Tests.{◌==◌, if◌then◌else◌, Bool-cases}
use iu7_pvs_cp.Base.Lists.{length, drop}
use iu7_pvs_cp.Base.Text.{Bytes}

abbrev pub starts_crlf : Bytes → Bool
starts_crlf (c ∷ d ∷ cs) = c == b'\r' && d == b'\n'
starts_crlf _ = false

unfoldable pub find_crlf_at : Bytes → ℕ → Option ℕ
find_crlf_at [] i = none
find_crlf_at (c ∷ cs) i =
    let rest = find_crlf_at cs (i + 1) in if starts_crlf (c ∷ cs) then some i else rest

unfoldable pub strstr_crlf : Bytes → Option ℕ
unfolding find_crlf_at
strstr_crlf s = find_crlf_at s 0

-- No line end inside.
abbrev pub NoCrlf : Bytes → Type 0
NoCrlf [] = Unit {0}
NoCrlf (c ∷ cs) = (starts_crlf (c ∷ cs) ≡ false) × NoCrlf cs

-- `j` is the offset of a line end of `s`, found at offset `i`.
pub record FoundAt (s : Bytes) (i j : ℕ) : Type 0 where
  pub before : Bytes
  pub after : Bytes
  pub whole : s ≡ before ++ (b'\r' ∷ b'\n' ∷ after)
  pub offset : i + length before ≡ j

starts_crlf_lem :
    (c : ℕ) (cs : Bytes) → starts_crlf (c ∷ cs) ≡ true → c ∷ cs ≡ b'\r' ∷ b'\n' ∷ drop 1 cs
starts_crlf_lem c [] h = cc
starts_crlf_lem c (d ∷ cs) h = ground arith

pub FoundAt-cons : {cs : Bytes} (c : ℕ) (i j : ℕ) → FoundAt cs (i + 1) j → FoundAt (c ∷ cs) i j
FoundAt-cons c i j f = record {
  before = c ∷ f.before;
  after = f.after;
  whole = ap (◌∷◌ c) f.whole;
  offset = let e = f.offset in omega (arith, e);
}

pub find_crlf_at-FoundAt : (s : Bytes) (i j : ℕ) → find_crlf_at s i ≡ some j → FoundAt s i j
unfolding find_crlf_at
find_crlf_at-FoundAt [] i j h = absurd (cc)
find_crlf_at-FoundAt (c ∷ cs) i j h = elim (Bool-cases (starts_crlf (c ∷ cs))) [
  | inl e ↦ record {
    before = [];
    after = drop 1 cs;
    whole = starts_crlf_lem c cs e;
    offset = ground arith;
  }
  | inr e ↦ FoundAt-cons c i j (find_crlf_at-FoundAt cs (i + 1) j (ground arith))
]
