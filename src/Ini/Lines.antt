-- ===== src/Ini/Lines.antt =====
-- What `__ini_read_line` of common/src/ini.c makes of a line.
use iu7_pvs_cp.Base.{
  ℕ, Bool, true, false, List, [], ◌∷◌, ◌++◌, Option, none, some, Bytes, ◌==◌, ◌≡◌, ◌≢◌, refl, ap,
  ◌∙◌, All, Bool-cases, inl, inr, ==_differs,
}
use iu7_pvs_cp.StringUtils.{strtrim}
use iu7_pvs_cp.Ini.{find_value, cut_key, ini_read_line, ini_read_file_to_dict}

-- A byte that is not special to the loop.
abbrev pub IsPlain : ℕ → Type 0
IsPlain c = (c ≢ b'=') × (c ≢ b';')

-- Nothing, or a comment.
abbrev pub IsTail : Bytes → Type 0
IsTail [] = Unit {0}
IsTail (c ∷ cs) = c ≡ b';'

-- No ";", so that the loop reads on.
abbrev pub IsRead : ℕ → Type 0
IsRead c = c ≢ b';'

find_value-equals :
    (cs : Bytes) (v : Option Bytes) → find_value (b'=' ∷ cs) v ≡ find_value cs (some cs)
unfolding find_value
find_value-equals cs v = refl

find_value-plain :
    (s rest : Bytes) (v : Option Bytes)
    → All IsPlain s
    → find_value (s ++ rest) v ≡ find_value rest v
unfolding find_value
find_value-plain [] rest v h = refl
find_value-plain (c ∷ cs) rest v h =
    let e : (c == b';') ≡ false = ==_differs c b';' h.0.1 in
    let f : (c == b'=') ≡ false = ==_differs c b'=' h.0.0 in
    rw e (rw f (find_value-plain cs rest v h.1))

find_value-tail : (t : Bytes) (v : Option Bytes) → IsTail t → find_value t v ≡ v
unfolding find_value
find_value-tail [] v h = refl
find_value-tail (c ∷ cs) v h = rw h refl

-- Behind the last "=", whatever the loop has read before it.
find_value-last :
    (s rest : Bytes) (v : Option Bytes)
    → All IsRead s
    → find_value (s ++ b'=' ∷ rest) v ≡ find_value rest (some rest)
unfolding find_value
find_value-last [] rest v h = refl
find_value-last (c ∷ cs) rest v h =
    let e : (c == b';') ≡ false = ==_differs c b';' h.0 in
    elim (Bool-cases (c == b'=')) [
      | inl f ↦ rw e (rw f (find_value-last cs rest (some (cs ++ b'=' ∷ rest)) h.1))
      | inr f ↦ rw e (rw f (find_value-last cs rest v h.1))
    ]

cut_key-plain : (k rest : Bytes) → All IsPlain k → cut_key (k ++ b'=' ∷ rest) ≡ k
unfolding cut_key
cut_key-plain [] rest h = refl
cut_key-plain (c ∷ cs) rest h =
    rw (==_differs c b'=' h.0.0) (ap (◌∷◌ c) (cut_key-plain cs rest h.1))

module _ {D : Type 0} (dict_set : Bytes → Bytes → D → D) where
  read_line-value :
      (line value : Bytes) (dict : D)
      → find_value line none ≡ some value
      → ini_read_line dict_set true line dict
        ≡ some (dict_set (strtrim (cut_key line)) (strtrim value) dict)
  unfolding ini_read_line
  read_line-value line value dict e = rw (e, ini_read_line) refl

-- While memory lasts, a line that is a key, "=", a value and nothing or a comment, key and value
-- without "=" and ";", sets the trimmed key; the value that it gets is the trimmed rest of the
-- line, the comment included.
pub ini_read_line-pair :
    {D : Type 0}
    → (dict_set : Bytes → Bytes → D → D) (key value tail : Bytes) (dict : D) → All IsPlain key
    → All IsPlain value
    → IsTail tail
    → ini_read_line dict_set true (key ++ b'=' ∷ (value ++ tail)) dict
      ≡ some (dict_set (strtrim key) (strtrim (value ++ tail)) dict)
ini_read_line-pair dict_set key value tail dict hk hv ht =
    read_line-value dict_set (key ++ b'=' ∷ (value ++ tail)) (value ++ tail) dict (
      find_value-plain key _ none hk
      ∙ find_value-equals (value ++ tail) none
      ∙ find_value-plain value tail _ hv
      ∙ find_value-tail tail _ ht)
    ∙ ap (λ k. some (dict_set (strtrim k) (strtrim (value ++ tail)) dict))
        (cut_key-plain key (value ++ tail) hk)

-- While memory lasts, on a line with more than one "=" before any comment the key is what stands
-- before the first and the value is the rest of the line behind the last; what stands between
-- them is lost.
pub ini_read_line-pair_last :
    {D : Type 0}
    → (dict_set : Bytes → Bytes → D → D) (key middle value tail : Bytes) (dict : D)
    → All IsPlain key
    → All IsRead middle
    → All IsPlain value
    → IsTail tail
    → ini_read_line dict_set true (key ++ b'=' ∷ (middle ++ b'=' ∷ (value ++ tail))) dict
      ≡ some (dict_set (strtrim key) (strtrim (value ++ tail)) dict)
ini_read_line-pair_last dict_set key middle value tail dict hk hm hv ht =
    read_line-value dict_set (key ++ b'=' ∷ (middle ++ b'=' ∷ (value ++ tail))) (value ++ tail) dict
      (find_value-plain key _ none hk
        ∙ find_value-equals (middle ++ b'=' ∷ (value ++ tail)) none
        ∙ find_value-last middle (value ++ tail) _ hm
        ∙ find_value-plain value tail _ hv
        ∙ find_value-tail tail _ ht)
    ∙ ap (λ k. some (dict_set (strtrim k) (strtrim (value ++ tail)) dict)) (cut_key-plain key _ hk)

ini_read_line-none :
    {D : Type 0}
    → (dict_set : Bytes → Bytes → D → D) (alloc : Bool) (line : Bytes) (dict : D)
    → find_value line none ≡ none
    → ini_read_line dict_set alloc line dict ≡ none
unfolding ini_read_line
ini_read_line-none dict_set alloc line dict e = rw (e, ini_read_line) refl

-- A line with no "=" before its comment, an empty line among them, ends the reading with -1: the
-- lines behind it are not read, and the dictionary is as it was before the line.
pub ini_read_file_to_dict-rejects :
    {D : Type 0}
    → (dict_set : Bytes → Bytes → D → D) (alloc : Bool) (text tail : Bytes) (lines : List Bytes)
      (dict : D)
    → All IsPlain text
    → IsTail tail
    → ini_read_file_to_dict dict_set alloc ((text ++ tail) ∷ lines) dict ≡ (dict, false)
unfolding ini_read_file_to_dict
ini_read_file_to_dict-rejects dict_set alloc text tail lines dict h t =
    let e =
      ini_read_line-none dict_set alloc (text ++ tail) dict
        (find_value-plain text tail none h ∙ find_value-tail tail none t) in
    rw (e, ini_read_file_to_dict) refl
