-- ===== src/Smtp/Commands/Transaction.antt =====
-- A mail transaction at the server: what MAIL, RCPT and DATA accept, and what the text leaves.
use mathlib.Core.List.{foldl, reverse, reverse-append}
use iu7_pvs_cp.Base.{
  ℕ, true, false, List, [], ◌∷◌, ◌++◌, Option, none, some, ◌≡◌, ◌≢◌, refl, sym, ap, ◌∙◌, Bytes,
  codes, str_eq, str_eq_iff, All, append-nil, append_assoc, is_space, Bool-cases, inl, inr,
}
use iu7_pvs_cp.StringUtils.{strtrim, strstartswith}
use iu7_pvs_cp.StringUtils.Trim.{ends, strtrim_middle}
use iu7_pvs_cp.Smtp.Regex.{match_mail_from, match_rcpt_to}
use iu7_pvs_cp.Smtp.Regex.Address.{IsMail}
use iu7_pvs_cp.Smtp.Regex.Paths.{match_mail_from_iff, match_rcpt_to_iff}
use iu7_pvs_cp.Smtp.Session.{
  established, mail_rcpt, mail_data, Envelope, Session, ring_add, snprintf,
}
use iu7_pvs_cp.Smtp.Commands.{
  Outcome, smtp_mail, smtp_rcpt, smtp_read_data, dispatch, smtp_process_command,
}
use iu7_pvs_cp.Smtp.Commands.Invariant.{parts}

-- A command that is `head`, a mailbox and ">".
abbrev pub bracketed : Bytes → Bytes → Bytes
bracketed head mail = head ++ (mail ++ b'>' ∷ [])

strtrim-bracketed :
    (c : ℕ) (head mail : Bytes)
    → is_space c ≡ false
    → strtrim (c ∷ bracketed head mail) ≡ c ∷ bracketed head mail
unfolding is_space
strtrim-bracketed c head mail h =
    let whole : (c ∷ ((head ++ mail) ++ b'>' ∷ [])) ++ [] ≡ c ∷ bracketed head mail =
      append-nil _ ∙ ap (◌∷◌ c) (append_assoc head mail (b'>' ∷ [])) in
    ap strtrim (sym whole)
    ∙ strtrim_middle [] (c ∷ ((head ++ mail) ++ b'>' ∷ [])) [] tt
        (ends c (head ++ mail) b'>' h refl) tt
    ∙ ap (◌∷◌ c) (append_assoc head mail (b'>' ∷ []))

module _ (buf : List Bytes) (size : ℕ) (env : Envelope) (reply : Bytes) (len : ℕ) where
  -- MAIL with a mailbox opens a transaction.
  pub process_mail :
      (mail : Bytes)
      → IsMail mail
      → smtp_process_command
          (bracketed (codes "MAIL FROM:<") mail)
          true
          (parts buf size established env)
          reply
          len
        ≡ some (record {
          session = parts [] 0 mail_rcpt (record env { sender = some mail });
          reply = snprintf len (codes "250 OK\r\n");
          closing = false;
        })
  unfolding smtp_process_command dispatch smtp_mail strstartswith is_space
  process_mail mail m =
      let command = bracketed (codes "MAIL FROM:<") mail in
      let e : match_mail_from command ≡ some mail =
        (match_mail_from_iff command mail).1
          ([], record { verb = codes "MAIL FROM:<"; spelled = refl; mailbox = m; whole = refl }) in
      rw (strtrim-bracketed b'M' (codes "AIL FROM:<") mail refl) (rw (e, smtp_mail) refl)

  -- RCPT with a mailbox adds a recipient.
  pub process_rcpt :
      (mail : Bytes)
      → IsMail mail
      → smtp_process_command
          (bracketed (codes "RCPT TO:<") mail)
          true
          (parts buf size mail_rcpt env)
          reply
          len
        ≡ some (record {
          session = parts [] 0 mail_rcpt (record env { recipients = ring_add env.recipients mail });
          reply = snprintf len (codes "250\r\n");
          closing = false;
        })
  unfolding smtp_process_command dispatch smtp_rcpt strstartswith is_space
  process_rcpt mail m =
      let command = bracketed (codes "RCPT TO:<") mail in
      let e : match_rcpt_to command ≡ some mail =
        (match_rcpt_to_iff command mail).1
          (record { verb = codes "RCPT TO:<"; spelled = refl; mailbox = m; whole = refl }) in
      rw (strtrim-bracketed b'R' (codes "CPT TO:<") mail refl) (rw (e, smtp_rcpt) refl)

  pub process_data :
      smtp_process_command (codes "DATA") true (parts buf size mail_rcpt env) reply len
      ≡ some (record {
        session = parts [] 0 mail_data env;
        reply = snprintf len (codes "354\r\n");
        closing = false;
      })
  unfolding smtp_process_command dispatch strstartswith strtrim
  process_data = refl

  pub process_line :
      (line : Bytes)
      → line ≢ codes "."
      → smtp_process_command line true (parts buf size mail_data env) reply len
        ≡ some (record {
          session = parts [] 0 mail_data (record env { lines = ring_add env.lines line });
          reply = reply;
          closing = false;
        })
  unfolding smtp_process_command smtp_read_data
  process_line line h = let e : str_eq (codes ".") line ≡ false = not_dot line h in rw e refl
    where
      not_dot : (line : Bytes) → line ≢ codes "." → str_eq (codes ".") line ≡ false
      not_dot line h = elim (Bool-cases (str_eq (codes ".") line)) [
        | inl e ↦ absurd (h (sym ((str_eq_iff (codes ".") line).0 e)))
        | inr e ↦ e
      ]

-- The commands of one client in order, with the session and the reply buffer that each leaves.
-- `malloc` succeeds.
pub process_all : List Bytes → Session → Bytes → ℕ → Option (Session × Bytes)
process_all [] s reply len = some (s, reply)
process_all (c ∷ cs) s reply len = elim (smtp_process_command c true s reply len) [
  | none ↦ none
  | some o ↦ process_all cs o.session o.reply len
]

process_all-step :
    (c : Bytes) (cs : List Bytes) (s : Session) (reply : Bytes) (len : ℕ) {o : Outcome}
    → smtp_process_command c true s reply len ≡ some o
    → process_all (c ∷ cs) s reply len ≡ process_all cs o.session o.reply len
unfolding process_all
process_all-step c cs s reply len e = rw (e, process_all) refl

process_all-lines :
    (ls : List Bytes) (env : Envelope) (reply : Bytes) (len : ℕ)
    → All (λ l. l ≢ codes ".") ls
    → process_all ls (parts [] 0 mail_data env) reply len
      ≡ some (parts [] 0 mail_data (record env { lines = foldl ring_add env.lines ls }), reply)
unfolding process_all
process_all-lines [] env reply len h = refl
process_all-lines (l ∷ ls) env reply len h =
    process_all-step l ls _ reply len (process_line [] 0 env reply len l h.0)
    ∙ process_all-lines ls (record env { lines = ring_add env.lines l }) reply len h.1

foldl-ring_add :
    (x : Bytes) (ys zs : List Bytes) → foldl ring_add (x ∷ ys) zs ≡ x ∷ (reverse zs ++ ys)
foldl-ring_add x ys [] = refl
foldl-ring_add x ys (z ∷ zs) =
    foldl-ring_add x (z ∷ ys) zs
    ∙ ap (◌∷◌ x) (
        sym
          (ap (λ l. l ++ ys) (reverse-append (z ∷ []) zs) ∙ append_assoc (reverse zs) (z ∷ []) ys))

-- From a session that has been greeted and holds nothing: MAIL and RCPT with mailboxes, DATA and
-- the text lines of a message, none of them ".", leave the sender, the recipient and the lines
-- in the envelope. The first line stands first, and the others follow it in reverse.
pub transaction :
    (sender recipient first : Bytes) (rest : List Bytes) (buf : List Bytes) (size : ℕ)
    (reply : Bytes) (len : ℕ)
    → IsMail sender
    → IsMail recipient
    → All (λ l. l ≢ codes ".") (first ∷ rest)
    → process_all
        (bracketed (codes "MAIL FROM:<") sender
          ∷ bracketed (codes "RCPT TO:<") recipient
          ∷ codes "DATA"
          ∷ first
          ∷ rest)
        (parts buf size established (record { recipients = []; lines = []; sender = none }))
        reply
        len
      ≡ some (
        parts [] 0 mail_data (record {
          recipients = recipient ∷ [];
          lines = first ∷ reverse rest;
          sender = some sender;
        }),
        snprintf len (codes "354\r\n"),
      )
transaction sender recipient first rest buf size reply len ms mr h =
    process_all-step _ _ _ reply len (process_mail buf size _ reply len sender ms)
    ∙ process_all-step _ _ _ _ len (process_rcpt [] 0 _ _ len recipient mr)
    ∙ process_all-step _ _ _ _ len (process_data [] 0 _ _ len)
    ∙ process_all-lines (first ∷ rest) _ _ len h
    ∙ ap
        (λ ls. some (
          parts [] 0 mail_data
              (record { recipients = recipient ∷ []; lines = ls; sender = some sender }),
          snprintf len (codes "354\r\n"),
        ))
        (foldl-ring_add first [] rest ∙ ap (◌∷◌ first) (append-nil (reverse rest)))
