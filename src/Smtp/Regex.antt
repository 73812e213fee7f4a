-- ===== src/Smtp/Regex.antt =====
-- The regular expressions of server/src/smtp.c, as `regexec` reads them with REG_EXTENDED and
-- REG_ICASE. The classes that follow one another are disjoint, so a match has one shape only.
pub mod Address
pub mod Paths
use iu7_pvs_cp.Base.{
  ℕ, ◌+◌, Bool, true, false, ◌&&◌, ◌||◌, [], ◌∷◌, ◌++◌, Option, none, some, ◌==◌, if◌then◌else◌,
  Bytes, between, to_lower, str_eq_ignore_case, codes,
}
use mathlib.Core.Option

-- [0-9a-zA-Z\\-]: inside the brackets the backslash stands for itself.
unfoldable pub is_atom_char : ℕ → Bool
is_atom_char c =
    between b'0' b'9' c || between b'a' b'z' c || between b'A' b'Z' c || c == b'\\' || c == b'-'

abbrev pub push : ℕ → Option (Bytes × Bytes) → Option (Bytes × Bytes)
push c = Option.map (λ (m : Bytes × Bytes). (c ∷ m.0, m.1))

-- REGEX_DOMAIN, an atom and any number of "." and an atom: what it matches and what is left. The
-- flag says that the atom at hand has a byte already.
unfoldable pub match_domain : Bool → Bytes → Option (Bytes × Bytes)
unfolding is_atom_char
match_domain begun [] = if begun then some ([], []) else none
match_domain begun (c ∷ cs) =
    let same = match_domain true cs in
    let next = match_domain false cs in
    if is_atom_char c
    then push c same
    else if begun && c == b'.'
    then push c next
    else if begun
    then some ([], c ∷ cs)
    else none

-- The rest behind a byte that must come next.
unfoldable pub expect : ℕ → Bytes → Option Bytes
expect c [] = none
expect c (d ∷ cs) = if d == c then some cs else none

infixl 5 ◌>>=◌
abbrev pub ◌>>=◌ {ℓ κ} : {A : Type ℓ} {B : Type κ} → Option A → (A → Option B) → Option B
none >>= f = none
some a >>= f = f a

-- REGEX_MAIL: the mailbox and what is left.
unfoldable pub match_mail : Bytes → Option (Bytes × Bytes)
unfolding match_domain expect
match_mail s = do
  l ← match_domain false s
  r ← expect b'@' l.1
  d ← match_domain false r
  some (l.0 ++ b'@' ∷ d.0, d.1)

-- The literal bytes of an expression, matched with REG_ICASE: what is left behind them.
unfoldable pub match_literal : Bytes → Bytes → Option Bytes
unfolding to_lower
match_literal [] s = some s
match_literal (p ∷ ps) [] = none
match_literal (p ∷ ps) (c ∷ cs) =
    let rest = match_literal ps cs in if to_lower c == to_lower p then rest else none

-- "^MAIL FROM:<" REGEX_MAIL ">.*$": the first group.
unfoldable pub match_mail_from : Bytes → Option Bytes
unfolding match_literal match_mail expect
match_mail_from command = do
  s ← match_literal (codes "MAIL FROM:<") command
  m ← match_mail s
  rest ← expect b'>' m.1
  some m.0

abbrev at_end : Bytes → Bytes → Option Bytes
at_end mail [] = some mail
at_end mail (c ∷ cs) = none

-- "^RCPT TO:<" REGEX_MAIL ">$": the first group.
unfoldable pub match_rcpt_to : Bytes → Option Bytes
unfolding match_literal match_mail expect
match_rcpt_to command = do
  s ← match_literal (codes "RCPT TO:<") command
  m ← match_mail s
  rest ← expect b'>' m.1
  at_end m.0 rest

-- "^DATA$", "^RSET$" and "^QUIT$".
abbrev pub match_word : Bytes → Bytes → Bool
match_word word command = str_eq_ignore_case command word
