-- ===== src/Ini.antt =====
-- common/src/ini.c: the reading of the configuration.
pub mod Lines
mod Examples
use iu7_pvs_cp.Base.{
  ℕ, Bool, true, false, not, List, [], ◌∷◌, Option, none, some, Bytes, ◌==◌, if◌then◌else◌,
}
use iu7_pvs_cp.StringUtils.{strtrim}

-- The loop of `__ini_read_line` from some place on: `value` is the string behind the last "=".
unfoldable pub find_value : Bytes → Option Bytes → Option Bytes
find_value [] value = value
find_value (c ∷ cs) value =
    let at_equals = find_value cs (some cs) in
    let further = find_value cs value in
    if c == b';' then value else if c == b'=' then at_equals else further

-- `key` when an "=" was overwritten with the terminator: the string before the first one.
unfoldable pub cut_key : Bytes → Bytes
cut_key [] = []
cut_key (c ∷ cs) = let rest = cut_key cs in if c == b'=' then [] else c ∷ rest

-- The dictionary is a parameter, with the function that sets a key.
module _ {D : Type 0} (dict_set : Bytes → Bytes → D → D) where
  -- `none` is -1; then the dictionary is as it was. `alloc` says whether `strdup` succeeds.
  unfoldable pub ini_read_line : Bool → Bytes → D → Option D
  unfolding find_value cut_key
  ini_read_line alloc line dict = elim (find_value line none) [
    | none ↦ none
    | some value ↦
        if alloc then some (dict_set (strtrim (cut_key line)) (strtrim value) dict) else none
  ]

  -- The lines are what `fgets` returns, one after the other. The dictionary, and whether 0 is
  -- returned.
  unfoldable pub ini_read_file_to_dict : Bool → List Bytes → D → D × Bool
  unfolding ini_read_line
  ini_read_file_to_dict alloc [] dict = (dict, true)
  ini_read_file_to_dict alloc (line ∷ lines) dict = elim (ini_read_line alloc line dict) [
    | none ↦ (dict, false)
    | some d ↦ ini_read_file_to_dict alloc lines d
  ]
