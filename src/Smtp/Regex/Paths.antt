-- ===== src/Smtp/Regex/Paths.antt =====
-- The expressions of MAIL and RCPT accept exactly the commands that carry a mailbox.
use iu7_pvs_cp.Base.{
  true, [], ◌∷◌, ◌++◌, Option, some, ◌≡◌, ◌↔◌, refl, ap, subst, ◌∙◌, arith, Bytes, codes,
  str_eq_ignore_case,
}
use iu7_pvs_cp.Smtp.Regex.{
  is_atom_char, match_literal, expect, match_mail, match_mail_from, match_rcpt_to, at_end, ◌>>=◌,
}
use iu7_pvs_cp.Smtp.Regex.Address.{
  IsMail, match_mail_sound, match_mail_complete, bind-eq-some, expect_sound,
}

match_literal_sound :
    (p s : Bytes) {r : Bytes}
    → match_literal p s ≡ some r
    → (l : Bytes) × (s ≡ l ++ r) × (str_eq_ignore_case l p ≡ true)
unfolding match_literal
match_literal_sound [] s h = ([], ground arith, refl)
match_literal_sound (p ∷ ps) [] h = absurd (cc)
match_literal_sound (p ∷ ps) (c ∷ cs) h =
    let (l, e, k) = match_literal_sound ps cs (ground arith) in (c ∷ l, ap (◌∷◌ c) e, ground arith)

match_literal_complete :
    (l p r : Bytes) → str_eq_ignore_case l p ≡ true → match_literal p (l ++ r) ≡ some r
unfolding match_literal
match_literal_complete [] [] r h = refl
match_literal_complete (c ∷ l) (p ∷ ps) r h = ground (arith, match_literal_complete l ps r)
match_literal_complete _ _ r h = absurd (cc)

-- A command that is the literal in any case, the mailbox in brackets, and `rest`.
pub record CarriesMail (literal command mail rest : Bytes) : Type 0 where
  pub verb : Bytes
  pub spelled : str_eq_ignore_case verb literal ≡ true
  pub mailbox : IsMail mail
  pub whole : command ≡ verb ++ (mail ++ (b'>' ∷ rest))

CarriesMail-match :
    (literal command s : Bytes) (m : Bytes × Bytes) (rest : Bytes)
    → match_literal literal command ≡ some s
    → match_mail s ≡ some m
    → expect b'>' m.1 ≡ some rest
    → CarriesMail literal command m.0 rest
CarriesMail-match literal command s m rest es em er =
    let (l, e, k) = match_literal_sound literal command es in
    let (mail, whole) = match_mail_sound s m em in
    record {
      verb = l;
      spelled = k;
      mailbox = mail;
      whole = e ∙ ap (◌++◌ l) (whole ∙ ap (◌++◌ m.0) (expect_sound b'>' m.1 er));
    }

matches-CarriesMail :
    {literal command mail rest : Bytes} {A : Type 0} (f : Bytes → Bytes → Option A)
    → CarriesMail literal command mail rest
    → (match_literal literal command >>= λ s. match_mail s >>= λ m. expect b'>' m.1 >>= f m.0)
      ≡ f mail rest
unfolding expect is_atom_char
matches-CarriesMail {literal} {command} {mail} {rest} f w =
    let behind = b'>' ∷ rest in
    rw w.whole (
      rw (match_literal_complete w.verb literal (mail ++ behind) w.spelled)
        (rw (match_mail_complete behind w.mailbox (refl, refl)) refl))

at_end_sound :
    (m rest : Bytes) {mail : Bytes} → at_end m rest ≡ some mail → (rest ≡ []) × (m ≡ mail)
at_end_sound m [] h = (refl, cc)
at_end_sound m (c ∷ rest) h = absurd (cc)

-- The expression of MAIL accepts a command exactly if it is "MAIL FROM:<" in any case, a
-- mailbox, ">" and anything, and gives that mailbox.
pub match_mail_from_iff :
    (command mail : Bytes)
    → (match_mail_from command ≡ some mail)
      ↔ ((rest : Bytes) × CarriesMail (codes "MAIL FROM:<") command mail rest)
unfolding match_mail_from
match_mail_from_iff command mail = (
  λ h.
      let (s, es, h1) = bind-eq-some (match_literal (codes "MAIL FROM:<") command) _ h in
      let (m, em, h2) = bind-eq-some (match_mail s) _ h1 in
      let (rest, er, h3) = bind-eq-some (expect b'>' m.1) _ h2 in
      let e : m.0 ≡ mail = cc h3 in
      (
        rest,
        subst (λ x. CarriesMail (codes "MAIL FROM:<") command x rest) e
            (CarriesMail-match (codes "MAIL FROM:<") command s m rest es em er),
      ),
  λ w. matches-CarriesMail (λ m rest. some m) w.1,
)

-- The expression of RCPT accepts a command exactly if it is "RCPT TO:<" in any case, a mailbox
-- and ">", and gives that mailbox.
pub match_rcpt_to_iff :
    (command mail : Bytes)
    → (match_rcpt_to command ≡ some mail) ↔ CarriesMail (codes "RCPT TO:<") command mail []
unfolding match_rcpt_to
match_rcpt_to_iff command mail = (
  λ h.
      let (s, es, h1) = bind-eq-some (match_literal (codes "RCPT TO:<") command) _ h in
      let (m, em, h2) = bind-eq-some (match_mail s) _ h1 in
      let (rest, er, h3) = bind-eq-some (expect b'>' m.1) _ h2 in
      let (nil, e) = at_end_sound m.0 rest h3 in
      subst (λ x. CarriesMail (codes "RCPT TO:<") command x []) e
        (CarriesMail-match (codes "RCPT TO:<") command s m [] es em (er ∙ ap some nil)),
  λ w. matches-CarriesMail at_end w,
)
