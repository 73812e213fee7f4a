-- ===== src/Ini/Examples.antt =====
-- The theorems on common/src/ini.c at concrete lines, with a list of pairs as the dictionary.
use iu7_pvs_cp.Base.{ℕ, true, false, List, [], ◌∷◌, ◌++◌, ◌≡◌, ◌≢◌, ◌<◌, refl, Bytes, codes, arith}
use iu7_pvs_cp.Ini.{ini_read_file_to_dict}
use iu7_pvs_cp.Ini.Lines.{IsPlain, ini_read_file_to_dict-rejects}

abbrev Pairs : Type 0
Pairs = List (Bytes × Bytes)

abbrev set_pair : Bytes → Bytes → Pairs → Pairs
set_pair key value pairs = (key, value) ∷ pairs

plain : (c : ℕ) → 64 < c → IsPlain c
plain c h = ((λ e. omega arith), (λ e. omega arith))

read : (c : ℕ) → 64 < c → c ≢ b';'
read c h = λ e. omega arith

-- "A;B=C" before a good line.
ini_read_file_to_dict-rejects_example :
    ini_read_file_to_dict set_pair true ((codes "A" ++ codes ";B=C") ∷ codes "D=E" ∷ []) []
    ≡ ([], false)
ini_read_file_to_dict-rejects_example =
    ini_read_file_to_dict-rejects set_pair true (codes "A") (codes ";B=C") (codes "D=E" ∷ []) []
      (plain b'A' (omega arith), tt) refl
