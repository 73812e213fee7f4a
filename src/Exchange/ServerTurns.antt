-- ===== src/Exchange/ServerTurns.antt =====
-- A turn of the server of this repository on what its client sends.
use iu7_pvs_cp.Base.{
  ℕ, zero, suc, ◌+◌, ◌<◌, ◌≤◌, le→not-ltb, true, false, [], ◌∷◌, ◌++◌, some, none, ◌≡◌, ◌≢◌, refl,
  ap, ◌∙◌, Bytes, codes, length, length-append, arith,
}
use iu7_pvs_cp.StringUtils.Crlf.{NoReturn}
use iu7_pvs_cp.Smtp.Session.{
  SmtpState, established, mail_data, Envelope, Session, ring_add, smtp_session_reset,
}
use iu7_pvs_cp.Smtp.Commands.{Outcome, smtp_process_command, smtp_read_data}
use iu7_pvs_cp.Smtp.Commands.Invariant.{parts}
use iu7_pvs_cp.Smtp.Commands.Transaction.{process_line}
use iu7_pvs_cp.Server.{
  reply_max_len, Progress, served, strcat_all, on_outcome, one_command, after_command, command_loop,
  read_client,
}
use iu7_pvs_cp.Server.Lines.{crlf, command_loop-line}
use iu7_pvs_cp.Server.Pieces.{at_start}
use iu7_pvs_cp.Exchange.{on_served, server_turn}

-- A session that keeps no piece runs a whole line as a command.
one_command-line :
    (p : Progress) (st : SmtpState) (env : Envelope) (line : Bytes) {o : Outcome}
    → p.session ≡ parts [] 0 st env
    → p.freed ≡ false
    → smtp_process_command line true (parts [] 0 st env) p.reply reply_max_len ≡ some o
    → one_command true p line
      ≡ some (record {
        session = o.session;
        freed = o.closing;
        reply = o.reply;
        sent = p.sent ++ o.reply ∷ [];
      })
unfolding one_command on_outcome strcat_all
one_command-line p st env line s f e =
    rw (s, one_command)
      (rw f
        (rw (le→not-ltb (length line + 0) (length line) (omega arith)) (rw (e, on_outcome) refl)))

command_loop-end : (fuel : ℕ) (p : Progress) → 0 < fuel → command_loop fuel true p [] ≡ served p
unfolding command_loop
command_loop-end zero p l = absurd (omega arith)
command_loop-end (suc fuel) p l = refl

-- The state of the loop behind a command.
abbrev behind : Progress → Outcome → Progress
behind p o = record {
  session = o.session;
  freed = o.closing;
  reply = o.reply;
  sent = p.sent ++ o.reply ∷ [];
}

command_loop-command :
    (fuel : ℕ) (p : Progress) (st : SmtpState) (env : Envelope) (line rest : Bytes) {o : Outcome}
    → NoReturn line
    → p.session ≡ parts [] 0 st env
    → p.freed ≡ false
    → smtp_process_command line true (parts [] 0 st env) p.reply reply_max_len ≡ some o
    → command_loop (suc fuel) true p (line ++ crlf rest) ≡ command_loop fuel true (behind p o) rest
command_loop-command fuel p st env line rest n s f e =
    command_loop-line fuel true p line rest n
    ∙ ap (λ q. after_command q (λ q. command_loop fuel true q rest))
        (one_command-line p st env line s f e)

command_loop-last :
    (fuel : ℕ) (p : Progress) (st : SmtpState) (env : Envelope) (line : Bytes) {o : Outcome}
    → NoReturn line
    → p.session ≡ parts [] 0 st env
    → p.freed ≡ false
    → smtp_process_command line true (parts [] 0 st env) p.reply reply_max_len ≡ some o
    → 1 < fuel
    → command_loop fuel true p (line ++ crlf []) ≡ served (behind p o)
command_loop-last zero p st env line n s f e l = absurd (omega arith)
command_loop-last (suc fuel) p st env line {o} n s f e l =
    command_loop-command fuel p st env line [] n s f e
    ∙ command_loop-end fuel (behind p o) (omega arith)

one_read :
    (s : Session) (bytes : Bytes)
    → length bytes ≤ 1024
    → server_turn s bytes ≡ on_served (read_client (suc (length bytes)) true s bytes)
unfolding server_turn
one_read s bytes l = rw (le→not-ltb 1024 (length bytes) l) refl

-- One command in a read: its session and its reply.
pub server_turn-command :
    (st : SmtpState) (env : Envelope) (line : Bytes) {o : Outcome}
    → NoReturn line
    → smtp_process_command line true (parts [] 0 st env) [] reply_max_len ≡ some o
    → length line ≤ 1022
    → server_turn (parts [] 0 st env) (line ++ crlf []) ≡ some (o.session, o.reply ++ [])
unfolding read_client strcat_all
server_turn-command st env line {o} n e l =
    one_read (parts [] 0 st env) (line ++ crlf []) (omega (arith, length-append line (crlf [])))
    ∙ ap on_served (
        command_loop-last (suc (length (line ++ crlf []))) (at_start (parts [] 0 st env)) st env
          line n refl refl e (omega (arith, length-append line (crlf []))))

-- The text of a mail as one line, and its end: the session is back, with an empty envelope.
pub server_turn-text :
    (env : Envelope) (line : Bytes)
    → NoReturn line
    → line ≢ codes "."
    → length line ≤ 1019
    → server_turn (parts [] 0 mail_data env) (line ++ crlf (codes "." ++ crlf []))
      ≡ some (
        parts [] 0 established (record { recipients = []; lines = []; sender = none }),
        codes "250 OK\r\n",
      )
unfolding read_client strcat_all smtp_process_command smtp_read_data smtp_session_reset
server_turn-text env line n d l =
    let text = line ++ crlf (codes "." ++ crlf []) in
    let env' = record env { lines = ring_add env.lines line } in
    let first =
      command_loop-command (length text) (at_start (parts [] 0 mail_data env)) mail_data env line
        (codes "." ++ crlf []) n refl refl (process_line [] 0 env [] reply_max_len line d) in
    one_read (parts [] 0 mail_data env) text
      (omega (arith, length-append line (crlf (codes "." ++ crlf []))))
    ∙ ap on_served (
        first
        ∙ command_loop-last (length text) (behind (at_start (parts [] 0 mail_data env)) after_line)
            mail_data env' (codes ".") ((λ e. omega arith), tt) refl refl refl
            (omega (arith, length-append line (crlf (codes "." ++ crlf [])))))
  where
    after_line : Outcome
    after_line = record {
      session = parts [] 0 mail_data (record env { lines = ring_add env.lines line });
      reply = [];
      closing = false;
    }
