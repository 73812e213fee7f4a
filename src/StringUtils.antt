-- ===== src/StringUtils.antt =====
-- common/src/string_utils.c: strtrim, strstartswith and strcrlf over byte strings.
pub mod Trim
pub mod Crlf
pub mod Prefix
mod Examples
use iu7_pvs_cp.Base.{
  ℕ, ◌+◌, ◌-◌, Bool, true, false, not, [], ◌∷◌, Option, none, some, ◌==◌, if◌then◌else◌, Bytes,
  is_space, to_lower, take, drop,
}

-- The two pointers of `strtrim`, as offsets into the string.
pub record Span : Type 0 where
  pub start : ℕ
  pub end : ℕ

-- One round of the loop, at the byte `c` of offset `i`.
trim_step : ℕ → ℕ → Span → Span
trim_step c i s =
    if not (is_space c)
    then record { start = (if s.start == s.end then i else s.start); end = i + 1 }
    else s

trim_loop : Bytes → ℕ → Span → Span
trim_loop [] i s = s
trim_loop (c ∷ cs) i s = trim_loop cs (i + 1) (trim_step c i s)

-- `*end = 0; return start;`: the string that starts at `start` and is cut at `end`.
unfoldable pub strtrim : Bytes → Bytes
unfolding trim_loop trim_step is_space
strtrim str =
    let s = trim_loop str 0 (record { start = 0; end = 0 }) in
    take (s.end - s.start) (drop s.start str)

-- The loop stops at the end of either string; the result is `prefix[i] == 0`.
unfoldable pub strstartswith : Bytes → Bytes → Bool → Bool
unfolding to_lower
strstartswith (c ∷ cs) (p ∷ ps) ignore_case =
    if (if ignore_case then not (to_lower c == to_lower p) else not (c == p))
    then false
    else strstartswith cs ps ignore_case
strstartswith str [] ignore_case = true
strstartswith [] (p ∷ ps) ignore_case = false

-- The loop of `strcrlf` at `sp = str + i`. `matched` says that one byte of the pattern "\r\n" is
-- matched, `pp = pattern + 1`.
unfoldable pub crlf_loop : Bytes → ℕ → Bool → Option ℕ
crlf_loop [] i matched = none
crlf_loop (c ∷ cs) i false = crlf_loop cs (i + 1) (c == b'\r')
crlf_loop (c ∷ cs) i true =
    let rest = crlf_loop cs (i + 1) false in if c == b'\n' then some (i + 1 - 2) else rest

-- The offset of the line end, or `none` for NULL.
unfoldable pub strcrlf : Bytes → Option ℕ
unfolding crlf_loop
strcrlf str = crlf_loop str 0 false
