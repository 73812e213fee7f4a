-- ===== src/Base/Text.antt =====
-- C strings: the bytes before the terminator. `isspace` and `tolower` are those of the C locale.
use Prim.Native.Nat.{ℕ, ◌+◌}
use Prim.Native.Char.{code}
use Prim.Native.String.{String}
use mathlib.Core.Bool.{Bool, true, false, ◌&&◌, ◌||◌}
use mathlib.Core.List.{List, [], ◌∷◌}
use mathlib.Core.Path.{◌≡◌}
use mathlib.Core.Logic.{◌↔◌}
use native.Mathlib.Omega.{arith}
use iu7_pvs_cp.Base.Tests.{leb, ◌==◌, if◌then◌else◌}

abbrev pub Bytes : Type 0
Bytes = List ℕ

-- The bytes of an ASCII literal.
abbrev pub codes : String → Bytes
codes String.[] = []
codes (String.◌∷◌ c s) = code c ∷ codes s

abbrev pub between : ℕ → ℕ → ℕ → Bool
between lo hi c = leb lo c && leb c hi

-- Space, and the bytes \t \n \v \f \r.
unfoldable pub is_space : ℕ → Bool
is_space c = c == b' ' || between 9 13 c

unfoldable pub to_lower : ℕ → ℕ
to_lower c = if between b'A' b'Z' c then c + 32 else c

-- strcmp(a, b) == 0
abbrev pub str_eq : Bytes → Bytes → Bool
str_eq [] [] = true
str_eq (x ∷ xs) (y ∷ ys) = x == y && str_eq xs ys
str_eq _ _ = false

pub str_eq_iff : (a b : Bytes) → (str_eq a b ≡ true) ↔ (a ≡ b)
str_eq_iff (x ∷ a) (y ∷ b) = ground (arith, str_eq_iff a b)
str_eq_iff _ _ = ground arith

-- Two strings that differ at most in case, as REG_ICASE and the `ignore_case` flag read them.
abbrev pub str_eq_ignore_case : Bytes → Bytes → Bool
str_eq_ignore_case [] [] = true
str_eq_ignore_case (x ∷ xs) (y ∷ ys) = to_lower x == to_lower y && str_eq_ignore_case xs ys
str_eq_ignore_case _ _ = false

-- An array of bytes, read as a C string.
unfoldable pub until_zero : Bytes → Bytes
until_zero [] = []
until_zero (b ∷ bs) = if b == 0 then [] else b ∷ until_zero bs
