-- ===== src/Client/Messages/Parts.antt =====
-- How `try_parse_message_part` cuts the receive buffer.
use iu7_pvs_cp.Base.{
  NoZero, until_zero, until_zero-append, ◌≢◌, ◌==◌, ◌<◌, ℕ, ◌+◌, ◌-◌, ◌≤◌, [], ◌∷◌, ◌++◌, Option,
  none, some, ◌≡◌, ◌⊎◌, inl, inr, Bool-cases, ltb, false, refl, sym, ap, ◌∙◌, Bytes, length,
  length-append, take, drop, take-length-append, drop-length-append, take-length, arith,
  append_assoc, find_crlf_at, strstr_crlf, le→not-ltb, lt→ltb,
}
use iu7_pvs_cp.StringUtils.Crlf.{NoReturn, find_crlf_at-skip}
use iu7_pvs_cp.Client.Connection.{System}
use iu7_pvs_cp.Client.Messages.{Part, copy_down, found_end, try_parse_message_part}
use iu7_pvs_cp.Client.Messages.Copies.{Copies, copy_down-move_down}

-- The part of a buffer that is `line`, a line end and `rest`.
abbrev pub cut_part : Bytes → Bytes → Part
cut_part line rest = record {
  message = some (line ++ (b'\r' ∷ b'\n' ∷ []));
  len = length line + 2;
  new_len = length rest;
  buf = rest ++ drop (length rest) (line ++ (b'\r' ∷ b'\n' ∷ rest));
}

found_end-eq :
    (s : System) (line rest : Bytes) (old_len : ℕ)
    → Copies s (length line + 2) (length rest)
    → let buf = line ++ (b'\r' ∷ b'\n' ∷ rest) in
      found_end s buf (length buf) old_len (some (length line)) ≡ some (cut_part line rest)
unfolding found_end
found_end-eq s line rest old_len copies =
    let m = line ++ (b'\r' ∷ b'\n' ∷ []) in
    let buf = line ++ (b'\r' ∷ b'\n' ∷ rest) in
    let e : buf ≡ m ++ rest = sym (append_assoc line (b'\r' ∷ b'\n' ∷ []) rest) in
    let l : length line + 2 ≡ length m = omega (arith, length-append line (b'\r' ∷ b'\n' ∷ [])) in
    let n : length buf ≡ length m + length rest = ap length e ∙ length-append m rest in
    let t : length buf - (length line + 2) ≡ length rest = omega arith in
    let f : ltb (length buf) (length line + 2) ≡ false =
      le→not-ltb (length buf) (length line + 2) (omega arith) in
    let a : take (length line + 2) buf ≡ m =
      ap (λ k. take k buf) l ∙ ap (take (length m)) e ∙ take-length-append m rest in
    let d : drop (length line + 2) buf ≡ rest =
      ap (λ k. drop k buf) l ∙ ap (drop (length m)) e ∙ drop-length-append m rest in
    let moved : copy_down s buf (length line + 2) (length rest) ≡ rest ++ drop (length rest) buf =
      copy_down-move_down s buf (length line + 2) (length rest) copies (omega arith)
      ∙ ap (λ x. take (length rest) x ++ drop (length rest) buf) d
      ∙ ap (λ x. x ++ drop (length rest) buf) (take-length rest) in
    rw f (rw t (rw a (rw moved refl)))

find_crlf_at-line :
    (line rest : Bytes) (i : ℕ)
    → NoReturn line
    → find_crlf_at (line ++ (b'\r' ∷ b'\n' ∷ rest)) i ≡ some (i + length line)
unfolding find_crlf_at
find_crlf_at-line [] rest i h = ap some (omega arith)
find_crlf_at-line (c ∷ cs) rest i h =
    find_crlf_at-skip c (cs ++ (b'\r' ∷ b'\n' ∷ rest)) i h.0
    ∙ find_crlf_at-line cs rest (i + 1) h.1
    ∙ ap some (omega arith)

-- The search in the buffer and what lies behind it.
strstr_crlf-line :
    (line rest behind : Bytes)
    → NoReturn line
    → NoZero line
    → strstr_crlf (until_zero ((line ++ (b'\r' ∷ b'\n' ∷ rest)) ++ behind)) ≡ some (length line)
unfolding strstr_crlf until_zero
strstr_crlf-line line rest behind h z =
    ap (λ b. find_crlf_at (until_zero b) 0) (append_assoc line (b'\r' ∷ b'\n' ∷ rest) behind)
    ∙ ap (λ b. find_crlf_at b 0) (until_zero-append line (b'\r' ∷ b'\n' ∷ (rest ++ behind)) z)
    ∙ find_crlf_at-line line (until_zero (rest ++ behind)) 0 h
    ∙ ap some (omega arith)

-- A line with no carriage return of its own is the first message.
pub try_parse_message_part-line :
    (s : System) (behind line rest : Bytes)
    → NoReturn line
    → NoZero line
    → Copies s (length line + 2) (length rest)
    → let buf = line ++ (b'\r' ∷ b'\n' ∷ rest) in
      try_parse_message_part s behind buf (length buf) (length buf) ≡ some (cut_part line rest)
unfolding try_parse_message_part
try_parse_message_part-line s behind line rest h z copies =
    let buf = line ++ (b'\r' ∷ b'\n' ∷ rest) in
    ap (found_end s buf (length buf) (length buf)) (strstr_crlf-line line rest behind h z)
    ∙ found_end-eq s line rest (length buf) copies

-- A message takes at least the two bytes of its end from the count.
abbrev pub Shorter : ℕ → Option Part → Type 0
Shorter n none = Unit {0}
Shorter n (some p) = (p.message ≡ none) ⊎ (p.new_len + 2 ≤ n)

found_end-Shorter :
    (s : System) (buf : Bytes) (n old_len : ℕ) (o : Option ℕ)
    → Shorter n (found_end s buf n old_len o)
unfolding found_end
found_end-Shorter s buf n old_len none = inl refl
found_end-Shorter s buf n old_len (some j) = elim (Bool-cases (ltb n (j + 2))) [
  | inl e ↦ rw e tt
  | inr e ↦ rw e (inr (fits n j e))
]
  where
    fits : (i k : ℕ) → ltb i (k + 2) ≡ false → i - (k + 2) + 2 ≤ i
    fits i k h = ground arith

pub try_parse_message_part-Shorter :
    (s : System) (behind buf : Bytes) (n old_len : ℕ)
    → Shorter n (try_parse_message_part s behind buf n old_len)
unfolding try_parse_message_part
try_parse_message_part-Shorter s behind buf n old_len =
    found_end-Shorter s buf n old_len (strstr_crlf (until_zero (buf ++ behind)))

-- With a count that does not reach behind the first line end, the size of `memcpy` is negative.
pub try_parse_message_part-stale :
    (s : System) (behind line rest : Bytes) (n old_len : ℕ)
    → NoReturn line
    → NoZero line
    → n < length line + 2
    → try_parse_message_part s behind (line ++ (b'\r' ∷ b'\n' ∷ rest)) n old_len ≡ none
unfolding try_parse_message_part found_end
try_parse_message_part-stale s behind line rest n old_len h z l =
    ap (found_end s (line ++ (b'\r' ∷ b'\n' ∷ rest)) n old_len)
      (strstr_crlf-line line rest behind h z)
    ∙ rw (lt→ltb n (length line + 2) l) refl

-- A line with a zero byte ends the search.
zero_cases :
    (line rest : Bytes) → NoReturn line → NoZero line ⊎ NoReturn (until_zero (line ++ rest))
unfolding until_zero
zero_cases [] rest h = inl tt
zero_cases (c ∷ cs) rest h = elim (Bool-cases (c == 0)) [
  | inl e ↦ inr (rw e tt)
  | inr e ↦ elim (zero_cases cs rest h.1) [
    | inl z ↦ inl (nonzero c e, z)
    | inr r ↦ inr (rw e (h.0, r))
  ]
]
  where
    nonzero : (c : ℕ) → (c == 0) ≡ false → c ≢ 0
    nonzero c e i = ground arith

find_crlf_at-none : (s : Bytes) (i : ℕ) → NoReturn s → find_crlf_at s i ≡ none
unfolding find_crlf_at
find_crlf_at-none [] i h = refl
find_crlf_at-none (c ∷ cs) i h = find_crlf_at-skip c cs i h.0 ∙ find_crlf_at-none cs (i + 1) h.1

-- Whether a line with its end alone in the buffer is found.
pub line_cases :
    (s : System) (line behind : Bytes) (n : ℕ)
    → NoReturn line
    → NoZero line
      ⊎ (try_parse_message_part s behind (line ++ (b'\r' ∷ b'\n' ∷ [])) n n
          ≡ some
              (record { message = none; len = 0; new_len = n; buf = line ++ (b'\r' ∷ b'\n' ∷ []) }))
unfolding try_parse_message_part strstr_crlf found_end
line_cases s line behind n h = elim (zero_cases line ((b'\r' ∷ b'\n' ∷ []) ++ behind) h) [
  | inl z ↦ inl z
  | inr r ↦ inr (
      ap (λ b. found_end s (line ++ (b'\r' ∷ b'\n' ∷ [])) n n (find_crlf_at (until_zero b) 0))
        (append_assoc line (b'\r' ∷ b'\n' ∷ []) behind)
      ∙ ap (found_end s (line ++ (b'\r' ∷ b'\n' ∷ [])) n n) (find_crlf_at-none _ 0 r))
]
