-- ===== src/StringUtils/Crlf.antt =====
-- What `strcrlf` finds and what it misses.
use iu7_pvs_cp.Base.{
  ℕ, ◌+◌, false, true, [], ◌∷◌, ◌++◌, ◌≡◌, ◌≢◌, refl, sym, ap, subst, ◌∙◌, arith, Bytes, length,
  Bool-cases, inl, inr, some, none, append-nil, ◌==◌, find_crlf_at, strstr_crlf, FoundAt,
  FoundAt-cons,
}
use iu7_pvs_cp.StringUtils.{crlf_loop, strcrlf}

-- No carriage return.
abbrev pub NoReturn : Bytes → Type 0
NoReturn [] = Unit {0}
NoReturn (c ∷ cs) = (c ≢ b'\r') × NoReturn cs

-- No two carriage returns in a row.
abbrev pub NoDouble : Bytes → Type 0
NoDouble (c ∷ d ∷ cs) = ((c ≡ b'\r') → (d ≢ b'\r')) × NoDouble (d ∷ cs)
NoDouble _ = Unit {0}

NoDouble-tail : (c : ℕ) (cs : Bytes) → NoDouble (c ∷ cs) → NoDouble cs
NoDouble-tail c [] h = tt
NoDouble-tail c (d ∷ cs) h = h.1

pub crlf_loop-skip :
    (c : ℕ) (cs : Bytes) (i : ℕ)
    → c ≢ b'\r'
    → crlf_loop (c ∷ cs) i false ≡ crlf_loop cs (i + 1) false
unfolding crlf_loop
crlf_loop-skip c cs i h = ap (crlf_loop cs (i + 1)) (ground arith)

pub find_crlf_at-skip :
    (c : ℕ) (cs : Bytes) (i : ℕ) → c ≢ b'\r' → find_crlf_at (c ∷ cs) i ≡ find_crlf_at cs (i + 1)
unfolding find_crlf_at
find_crlf_at-skip c [] i h = refl
find_crlf_at-skip c (d ∷ cs) i h = ground arith

mutual
  unfolding crlf_loop find_crlf_at

  crlf_loop-find : (s : Bytes) (i : ℕ) → NoDouble s → crlf_loop s i false ≡ find_crlf_at s i
  crlf_loop-find [] i h = refl
  crlf_loop-find (c ∷ cs) i h = elim (Bool-cases (c == b'\r')) [
    | inl e ↦
        let cr : c ≡ b'\r' = ground arith in
        ap (crlf_loop cs (i + 1)) e
        ∙ crlf_matched-find cs i (subst (λ x. NoDouble (x ∷ cs)) cr h)
        ∙ ap (λ d. find_crlf_at (d ∷ cs) i) (sym cr)
    | inr e ↦
        let ne : c ≢ b'\r' = ground arith in
        crlf_loop-skip c cs i ne
        ∙ crlf_loop-find cs (i + 1) (NoDouble-tail c cs h)
        ∙ sym (find_crlf_at-skip c cs i ne)
  ]

  crlf_matched-find :
      (s : Bytes) (i : ℕ)
      → NoDouble (b'\r' ∷ s)
      → crlf_loop s (i + 1) true ≡ find_crlf_at (b'\r' ∷ s) i
  crlf_matched-find [] i h = refl
  crlf_matched-find (d ∷ cs) i h = elim (Bool-cases (d == b'\n')) [
    | inl e ↦ ground arith
    | inr e ↦
        let ne : d ≢ b'\r' = h.0 refl in
        let later = crlf_loop-find cs (i + 1 + 1) (NoDouble-tail d cs h.1) in
        let skip = find_crlf_at-skip d cs (i + 1) ne in ground (arith, later, skip)
  ]

-- On a string with no two carriage returns in a row, `strcrlf` is the search for the first
-- "\r\n".
pub strcrlf-eq-strstr_crlf : (s : Bytes) → NoDouble s → strcrlf s ≡ strstr_crlf s
unfolding strcrlf strstr_crlf
strcrlf-eq-strstr_crlf s h = crlf_loop-find s 0 h

mutual
  unfolding crlf_loop

  crlf_loop-FoundAt : (s : Bytes) (i j : ℕ) → crlf_loop s i false ≡ some j → FoundAt s i j
  crlf_loop-FoundAt [] i j h = absurd (cc)
  crlf_loop-FoundAt (c ∷ cs) i j h = elim (Bool-cases (c == b'\r')) [
    | inl e ↦
        let cr : c ≡ b'\r' = ground arith in
        rw cr (crlf_matched-FoundAt cs i j (ap (crlf_loop cs (i + 1)) (sym e) ∙ h))
    | inr e ↦
        FoundAt-cons c i j (crlf_loop-FoundAt cs (i + 1) j (ap (crlf_loop cs (i + 1)) (sym e) ∙ h))
  ]

  crlf_matched-FoundAt :
      (s : Bytes) (i j : ℕ) → crlf_loop s (i + 1) true ≡ some j → FoundAt (b'\r' ∷ s) i j
  crlf_matched-FoundAt [] i j h = absurd (cc)
  crlf_matched-FoundAt (d ∷ cs) i j h = elim (Bool-cases (d == b'\n')) [
    | inl e ↦ record { before = []; after = cs; whole = ground arith; offset = ground arith }
    | inr e ↦
        FoundAt-cons b'\r' i j
          (FoundAt-cons d (i + 1) j (crlf_loop-FoundAt cs (i + 1 + 1) j (ground arith)))
  ]

-- Whatever the string, an offset that `strcrlf` returns is that of a "\r\n".
pub strcrlf-FoundAt : (s : Bytes) (j : ℕ) → strcrlf s ≡ some j → FoundAt s 0 j
unfolding strcrlf
strcrlf-FoundAt s j h = crlf_loop-FoundAt s 0 j h

crlf_loop-NoReturn :
    (line rest : Bytes) (i : ℕ)
    → NoReturn line
    → crlf_loop (line ++ rest) i false ≡ crlf_loop rest (i + length line) false
unfolding crlf_loop
crlf_loop-NoReturn [] rest i h = ap (λ k. crlf_loop rest k false) (omega arith)
crlf_loop-NoReturn (c ∷ cs) rest i h =
    crlf_loop-skip c (cs ++ rest) i h.0
    ∙ crlf_loop-NoReturn cs rest (i + 1) h.1
    ∙ ap (λ k. crlf_loop rest k false) (omega arith)

-- The first line end behind bytes that are no carriage return is found.
pub strcrlf_found :
    (line rest : Bytes)
    → NoReturn line
    → strcrlf (line ++ (b'\r' ∷ b'\n' ∷ rest)) ≡ some (length line)
unfolding strcrlf crlf_loop
strcrlf_found line rest h =
    crlf_loop-NoReturn line (b'\r' ∷ b'\n' ∷ rest) 0 h ∙ ap some (omega arith)

-- A line end behind a line with no carriage return and one more carriage return is passed over:
-- the search goes on behind it.
pub strcrlf_missed :
    (line rest : Bytes)
    → NoReturn line
    → strcrlf (line ++ (b'\r' ∷ b'\r' ∷ b'\n' ∷ rest)) ≡ crlf_loop rest (length line + 3) false
unfolding strcrlf crlf_loop
strcrlf_missed line rest h =
    crlf_loop-NoReturn line (b'\r' ∷ b'\r' ∷ b'\n' ∷ rest) 0 h
    ∙ ap (λ k. crlf_loop rest k false) (omega arith)

-- A string with no carriage return has no line end.
pub strcrlf-none : (s : Bytes) → NoReturn s → strcrlf s ≡ none
unfolding strcrlf crlf_loop
strcrlf-none s h = ap (λ l. crlf_loop l 0 false) (sym (append-nil s)) ∙ crlf_loop-NoReturn s [] 0 h
