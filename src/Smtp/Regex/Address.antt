-- ===== src/Smtp/Regex/Address.antt =====
-- The grammar of mailboxes, and that the matcher of server/src/smtp.c decides it.
use iu7_pvs_cp.Base.{
  ℕ, Bool, true, false, [], ◌∷◌, ◌++◌, Option, none, some, ◌==◌, ◌≡◌, refl, ap, sym, subst, ◌∙◌,
  arith, Bytes, Bool-cases, inl, inr, append_assoc, append-nil,
}
use iu7_pvs_cp.Smtp.Regex.{is_atom_char, push, match_domain, expect, match_mail, ◌>>=◌}

-- One or more letters, digits, backslashes and hyphens.
pub data IsAtom : Bytes → Type 0 where
  single : (c : ℕ) → is_atom_char c ≡ true → IsAtom (c ∷ [])
  cons : (c : ℕ) {cs : Bytes} → is_atom_char c ≡ true → IsAtom cs → IsAtom (c ∷ cs)

-- Atoms with dots between them.
pub data IsDomain : Bytes → Type 0 where
  atom : {a : Bytes} → IsAtom a → IsDomain a
  dotted : {a d : Bytes} → IsAtom a → IsDomain d → IsDomain (a ++ b'.' ∷ d)

pub record IsMail (m : Bytes) : Type 0 where
  pub local : Bytes
  pub domain : Bytes
  pub local_domain : IsDomain local
  pub domain_domain : IsDomain domain
  pub whole : m ≡ local ++ b'@' ∷ domain

IsDomain-cons : {d : Bytes} (c : ℕ) → is_atom_char c ≡ true → IsDomain d → IsDomain (c ∷ d)
IsDomain-cons c h (atom a) = atom (cons c h a)
IsDomain-cons c h (dotted a d) = dotted (cons c h a) d

-- What the flag of `match_domain` promises of the part that is matched.
abbrev Continues : Bool → Bytes → Type 0
Continues false d = IsDomain d
Continues true d = (c : ℕ) → is_atom_char c ≡ true → IsDomain (c ∷ d)

abbrev Matched : Bool → Bytes → Option (Bytes × Bytes) → Type 0
Matched begun s none = Unit {0}
Matched begun s (some m) = Continues begun m.0 × (s ≡ m.0 ++ m.1)

Matched-atom :
    (begun : Bool) (c : ℕ) (cs : Bytes) (m : Option (Bytes × Bytes))
    → is_atom_char c ≡ true
    → Matched true cs m
    → Matched begun (c ∷ cs) (push c m)
Matched-atom begun c cs none h t = tt
Matched-atom false c cs (some m) h t = (t.0 c h, ap (◌∷◌ c) t.1)
Matched-atom true c cs (some m) h t = ((λ b k. IsDomain-cons b k (t.0 c h)), ap (◌∷◌ c) t.1)

Matched-dot :
    (cs : Bytes) (m : Option (Bytes × Bytes))
    → Matched false cs m
    → Matched true (b'.' ∷ cs) (push b'.' m)
Matched-dot cs none t = tt
Matched-dot cs (some m) t = ((λ b k. dotted (single b k) t.0), ap (◌∷◌ b'.') t.1)

match_domain-Matched : (begun : Bool) (s : Bytes) → Matched begun s (match_domain begun s)
unfolding match_domain
match_domain-Matched false [] = tt
match_domain-Matched true [] = ((λ c h. atom (single c h)), refl)
match_domain-Matched false (c ∷ cs) = elim (Bool-cases (is_atom_char c)) [
  | inl e ↦ rw e (Matched-atom false c cs _ e (match_domain-Matched true cs))
  | inr e ↦ rw e tt
]
match_domain-Matched true (c ∷ cs) = elim (Bool-cases (is_atom_char c)) [
  | inl e ↦ rw e (Matched-atom true c cs _ e (match_domain-Matched true cs))
  | inr e ↦ rw e (elim (Bool-cases (c == b'.')) [
    | inl dot ↦ rw dot (
        subst (λ b. Matched true (b ∷ cs) (push b (match_domain false cs))) (sym (is_dot c dot))
          (Matched-dot cs _ (match_domain-Matched false cs)))
    | inr other ↦ rw other ((λ b h. atom (single b h)), refl)
  ])
]
  where
    is_dot : (c : ℕ) → (c == b'.') ≡ true → c ≡ b'.'
    is_dot c h = ground arith

pub expect_sound : (c : ℕ) (s : Bytes) {r : Bytes} → expect c s ≡ some r → s ≡ c ∷ r
unfolding expect
expect_sound c [] h = absurd (cc)
expect_sound c (d ∷ s) h = ground arith

pub bind-eq-some {ℓ κ} :
    {A : Type ℓ} {B : Type κ} (o : Option A) (f : A → Option B) {b : B}
    → (o >>= f) ≡ some b
    → (a : A) × (o ≡ some a) × (f a ≡ some b)
bind-eq-some none f h = absurd (cc)
bind-eq-some (some a) f h = (a, refl, h)

match_domain_sound :
    (s : Bytes) (m : Bytes × Bytes)
    → match_domain false s ≡ some m
    → IsDomain m.0 × (s ≡ m.0 ++ m.1)
match_domain_sound s m e = subst (Matched false s) e (match_domain-Matched false s)

-- What the expression of mailboxes matches is a mailbox at the front of the string.
pub match_mail_sound :
    (s : Bytes) (p : Bytes × Bytes) → match_mail s ≡ some p → IsMail p.0 × (s ≡ p.0 ++ p.1)
unfolding match_mail
match_mail_sound s p h =
    let (l, el, h1) = bind-eq-some (match_domain false s) _ h in
    let (t, et, h2) = bind-eq-some (expect b'@' l.1) _ h1 in
    let (d, ed, h3) = bind-eq-some (match_domain false t) _ h2 in
    let kl = match_domain_sound s l el in
    let kd = match_domain_sound t d ed in
    let e : (l.0 ++ b'@' ∷ d.0, d.1) ≡ p = cc h3 in
    rw (← e) (
      record { local = l.0; domain = d.0; local_domain = kl.0; domain_domain = kd.0; whole = refl },
      kl.1
          ∙ ap (◌++◌ l.0) (expect_sound b'@' l.1 et ∙ ap (◌∷◌ b'@') kd.1)
          ∙ sym (append_assoc l.0 (b'@' ∷ d.0) d.1),
    )

-- No byte at the front that a domain could go on with.
abbrev pub Stops : Bytes → Type 0
Stops [] = Unit {0}
Stops (c ∷ cs) = (is_atom_char c ≡ false) × ((c == b'.') ≡ false)

match_domain-atom :
    (begun : Bool) (c : ℕ) (cs : Bytes)
    → is_atom_char c ≡ true
    → match_domain begun (c ∷ cs) ≡ push c (match_domain true cs)
unfolding match_domain
match_domain-atom begun c cs h = rw h

match_domain-dot : (cs : Bytes) → match_domain true (b'.' ∷ cs) ≡ push b'.' (match_domain false cs)
unfolding match_domain is_atom_char
match_domain-dot cs = refl

match_domain-Stops : (r : Bytes) → Stops r → match_domain true r ≡ some ([], r)
unfolding match_domain
match_domain-Stops [] h = refl
match_domain-Stops (c ∷ cs) h = rw (h.0, h.1)

match_domain-IsAtom :
    {a : Bytes} (begun : Bool) (r : Bytes) {d t : Bytes}
    → IsAtom a
    → match_domain true r ≡ some (d, t)
    → match_domain begun (a ++ r) ≡ some (a ++ d, t)
match_domain-IsAtom begun r (single c h) e = match_domain-atom begun c r h ∙ ap (push c) e
match_domain-IsAtom begun r (cons c {cs} h a) e =
    match_domain-atom begun c (cs ++ r) h ∙ ap (push c) (match_domain-IsAtom true r a e)

match_domain_complete :
    {d : Bytes} (r : Bytes) → IsDomain d → Stops r → match_domain false (d ++ r) ≡ some (d, r)
match_domain_complete r (atom {a} k) h =
    match_domain-IsAtom false r k (match_domain-Stops r h) ∙ ap (λ x. some (x, r)) (append-nil a)
match_domain_complete r (dotted {a} {d} k t) h =
    ap (match_domain false) (append_assoc a (b'.' ∷ d) r)
    ∙ match_domain-IsAtom false (b'.' ∷ (d ++ r)) k
        (match_domain-dot (d ++ r) ∙ ap (push b'.') (match_domain_complete r t h))

-- A mailbox before a byte that no mailbox holds is matched as a whole.
pub match_mail_complete :
    {m : Bytes} (r : Bytes) → IsMail m → Stops r → match_mail (m ++ r) ≡ some (m, r)
unfolding match_mail expect
match_mail_complete r k h =
    let l = k.local in
    let d = k.domain in
    let first : match_domain false (l ++ (b'@' ∷ (d ++ r))) ≡ some (l, b'@' ∷ (d ++ r)) =
      match_domain_complete (b'@' ∷ (d ++ r)) k.local_domain (refl, refl) in
    let second = match_domain_complete r k.domain_domain h in
    rw (k.whole) (rw append_assoc (rw first (rw second refl)))
