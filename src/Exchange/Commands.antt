-- ===== src/Exchange/Commands.antt =====
-- What the server of this repository answers to the commands as its client writes them.
use iu7_pvs_cp.Base.{
  ℕ, ◌+◌, ◌≤◌, Bool, true, false, ◌==◌, ==_iff, Bool-cases, inl, inr, if◌then◌else◌, [], ◌∷◌, ◌++◌,
  some, none, ◌≡◌, ◌≢◌, refl, ap, sym, subst, ◌∙◌, append_assoc, Bytes, codes, length,
  length-append, arith,
}
use iu7_pvs_cp.StringUtils.{strtrim, strstartswith}
use iu7_pvs_cp.StringUtils.Crlf.{NoReturn}
use iu7_pvs_cp.Smtp.Regex.{is_atom_char}
use iu7_pvs_cp.Smtp.Regex.Address.{IsAtom, single, cons, IsDomain, atom, dotted, IsMail}
use iu7_pvs_cp.Smtp.Session.{
  initial, established, mail_rcpt, mail_data, Envelope, Session, smtp_session_reset,
}
use iu7_pvs_cp.Smtp.Commands.{smtp_process_command}
use iu7_pvs_cp.Smtp.Commands.Invariant.{parts}
use iu7_pvs_cp.Smtp.Commands.Transaction.{bracketed, process_mail, process_rcpt, process_data}
use iu7_pvs_cp.Server.{reply_max_len}
use iu7_pvs_cp.Server.Lines.{crlf}
use iu7_pvs_cp.Server.Pieces.{NoReturn-append}
use iu7_pvs_cp.Client.Fsm.{tr_connect, tr_data, tr_ehlo, tr_mf, tr_quit, tr_rt}
use iu7_pvs_cp.Client.Connection.{Conn}
use iu7_pvs_cp.Client.Handlers.Sending.{join, command}
use iu7_pvs_cp.Client.Messages.ReplyClass.{NoDigit}
use iu7_pvs_cp.Client.Handlers.Dialogue.{HasText}
use iu7_pvs_cp.Exchange.{server_turn}
use iu7_pvs_cp.Exchange.ServerTurns.{server_turn-command, server_turn-text}

-- A mailbox has no carriage return.
pub atom_char-ne : (c : ℕ) → is_atom_char c ≡ true → c ≢ b'\r'
unfolding is_atom_char
atom_char-ne c h = ground arith

pub IsAtom-NoReturn : {a : Bytes} → IsAtom a → NoReturn a
IsAtom-NoReturn (single c h) = (atom_char-ne c h, tt)
IsAtom-NoReturn (cons c h a) = (atom_char-ne c h, IsAtom-NoReturn a)

pub IsDomain-NoReturn : {d : Bytes} → IsDomain d → NoReturn d
IsDomain-NoReturn (atom a) = IsAtom-NoReturn a
IsDomain-NoReturn (dotted {a} {d} h k) =
    NoReturn-append a (b'.' ∷ d) (IsAtom-NoReturn h) ((λ e. omega arith), IsDomain-NoReturn k)

pub IsMail-NoReturn : (m : Bytes) → IsMail m → NoReturn m
IsMail-NoReturn m h = subst NoReturn (sym h.whole) (
    NoReturn-append h.local (b'@' ∷ h.domain) (IsDomain-NoReturn h.local_domain)
      ((λ e. omega arith), IsDomain-NoReturn h.domain_domain))

-- A text that can be looked through.
abbrev no_return : Bytes → Bool
no_return [] = true
no_return (c ∷ cs) = let rest = no_return cs in if c == b'\r' then false else rest

pub no_return_sound : (b : Bytes) → no_return b ≡ true → NoReturn b
no_return_sound [] e = tt
no_return_sound (c ∷ cs) e = elim (Bool-cases (c == b'\r')) [
  | inl k ↦ absurd (false_ne_true (sym (returns k) ∙ e))
  | inr k ↦ ((λ q. cc (k, (==_iff c b'\r').1 q)), no_return_sound cs (sym (goes_on k) ∙ e))
]
  where
    false_ne_true : false ≢ true
    false_ne_true q = cc q

    returns : (c == b'\r') ≡ true → no_return (c ∷ cs) ≡ false
    returns k = rw k refl

    goes_on : (c == b'\r') ≡ false → no_return (c ∷ cs) ≡ no_return cs
    goes_on k = rw k refl

-- A mail whose addresses the server takes and whose text it reads as one line, on a system where the
-- byte behind the memory of the text is zero and no digit lies behind `num` of `parse_return_code`.
pub record IsPlain (c : Conn) : Type 0 where
  pub has_text : HasText c
  pub no_digit : (n : ℕ) → NoDigit (c.system.behind_num n)
  pub from_mailbox : IsMail c.sender
  pub to_mailbox : IsMail c.to
  pub one_line : NoReturn (join c.mail.mail_text)
  pub no_dot : join c.mail.mail_text ≢ codes "."
  pub short_sender : length c.sender ≤ 1000
  pub short_receiver : length c.to ≤ 1000
  pub short_text : length (join c.mail.mail_text) ≤ 1019

abbrev pub nothing : Envelope
nothing = record { recipients = []; lines = []; sender = none }

-- What the server has when the client starts the text.
abbrev pub addressed : Conn → Session
addressed c =
    parts [] 0 mail_data (record { recipients = c.to ∷ []; lines = []; sender = some c.sender })

-- MAIL and RCPT as the client writes them.
pub command-bracketed :
    (head mail : Bytes) → head ++ (mail ++ codes ">\r\n") ≡ bracketed head mail ++ crlf []
command-bracketed head mail =
    ap (λ x. head ++ x) (sym (append_assoc mail (b'>' ∷ []) (crlf [])))
    ∙ sym (append_assoc head (mail ++ b'>' ∷ []) (crlf []))

pub length-bracketed :
    (head mail : Bytes) → length (bracketed head mail) ≡ length head + length mail + 1
length-bracketed head mail =
    omega (arith, length-append head (mail ++ b'>' ∷ []), length-append mail (b'>' ∷ []))

pub bracketed-NoReturn :
    (head mail : Bytes) → NoReturn head → NoReturn mail → NoReturn (bracketed head mail)
bracketed-NoReturn head mail h k =
    NoReturn-append head (mail ++ b'>' ∷ []) h
      (NoReturn-append mail (b'>' ∷ []) k ((λ e. omega arith), tt))

pub server_turn-ehlo :
    (c : Conn)
    → server_turn (parts [] 0 initial nothing) (command tr_connect c)
      ≡ some (parts [] 0 established nothing, codes "250\r\n")
unfolding command smtp_process_command smtp_session_reset strtrim strstartswith
server_turn-ehlo c =
    server_turn-command initial nothing (codes "EHLO alfabank.com")
      (no_return_sound (codes "EHLO alfabank.com") refl) refl (omega arith)

pub server_turn-mail :
    (c : Conn)
    → IsMail c.sender
    → length c.sender ≤ 1000
    → server_turn (parts [] 0 established nothing) (command tr_ehlo c)
      ≡ some (
        parts [] 0 mail_rcpt (record { recipients = []; lines = []; sender = some c.sender }),
        codes "250 OK\r\n",
      )
unfolding command
server_turn-mail c m l =
    ap (server_turn (parts [] 0 established nothing))
      (command-bracketed (codes "MAIL FROM:<") c.sender)
    ∙ server_turn-command established nothing (bracketed (codes "MAIL FROM:<") c.sender)
        (bracketed-NoReturn (codes "MAIL FROM:<") c.sender
          (no_return_sound (codes "MAIL FROM:<") refl) (IsMail-NoReturn c.sender m))
        (process_mail [] 0 nothing [] reply_max_len c.sender m)
        (omega (arith, length-bracketed (codes "MAIL FROM:<") c.sender))

pub server_turn-rcpt :
    (c : Conn)
    → IsMail c.to
    → length c.to ≤ 1000
    → server_turn
        (parts [] 0 mail_rcpt (record { recipients = []; lines = []; sender = some c.sender }))
        (command tr_mf c)
      ≡ some (
        parts [] 0 mail_rcpt
            (record { recipients = c.to ∷ []; lines = []; sender = some c.sender }),
        codes "250\r\n",
      )
unfolding command
server_turn-rcpt c m l =
    let env : Envelope = record { recipients = []; lines = []; sender = some c.sender } in
    ap (server_turn (parts [] 0 mail_rcpt env)) (command-bracketed (codes "RCPT TO:<") c.to)
    ∙ server_turn-command mail_rcpt env (bracketed (codes "RCPT TO:<") c.to)
        (bracketed-NoReturn (codes "RCPT TO:<") c.to (no_return_sound (codes "RCPT TO:<") refl)
          (IsMail-NoReturn c.to m))
        (process_rcpt [] 0 env [] reply_max_len c.to m)
        (omega (arith, length-bracketed (codes "RCPT TO:<") c.to))

pub server_turn-data :
    (c : Conn) (env : Envelope)
    → server_turn (parts [] 0 mail_rcpt env) (command tr_rt c)
      ≡ some (parts [] 0 mail_data env, codes "354\r\n")
unfolding command
server_turn-data c env =
    server_turn-command mail_rcpt env (codes "DATA") (no_return_sound (codes "DATA") refl)
      (process_data [] 0 env [] reply_max_len) (omega arith)

pub server_turn-message :
    (c : Conn) (env : Envelope)
    → IsPlain c
    → server_turn (parts [] 0 mail_data env) (command tr_data c)
      ≡ some (parts [] 0 established nothing, codes "250 OK\r\n")
unfolding command
server_turn-message c env p =
    server_turn-text env (join c.mail.mail_text) p.one_line p.no_dot p.short_text

pub server_turn-quit :
    (c : Conn)
    → server_turn (parts [] 0 established nothing) (command tr_quit c)
      ≡ some (parts [] 0 initial nothing, codes "221 OK\r\n")
unfolding command smtp_process_command smtp_session_reset strtrim strstartswith
server_turn-quit c =
    server_turn-command established nothing (codes "QUIT") (no_return_sound (codes "QUIT") refl)
      refl (omega arith)
