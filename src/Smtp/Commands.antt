-- ===== src/Smtp/Commands.antt =====
-- The command handlers of server/src/smtp.c.
pub mod Invariant
pub mod Protocol
pub mod Transaction
pub mod Total
use iu7_pvs_cp.Base.{
  ℕ, zero, Bool, true, false, ◌||◌, not, List, [], ◌∷◌, ◌++◌, Option, none, some, Bytes, codes,
  if◌then◌else◌, str_eq, ltb,
}
use iu7_pvs_cp.StringUtils.{strtrim, strstartswith}
use iu7_pvs_cp.Smtp.Regex.{match_mail_from, match_rcpt_to, match_word}
use iu7_pvs_cp.Smtp.Session.{
  SmtpState, initial, established, mail_rcpt, mail_data, Envelope, Session, ring_add, snprintf,
  buffer_reset, smtp_session_reset, smtp_free_session,
}

-- What a handler leaves: the session, the reply buffer, and whether it returns -1.
pub record Outcome : Type 0 where
  pub session : Session
  pub reply : Bytes
  pub closing : Bool

abbrev answer : Session → ℕ → Bytes → Outcome
answer session len text = record { session = session; reply = snprintf len text; closing = false }

unfoldable pub smtp_ehlo : Session → ℕ → Outcome
unfolding smtp_session_reset
smtp_ehlo session len = answer (smtp_session_reset session established) len (codes "250\r\n")

abbrev pub is_state : SmtpState → SmtpState → Bool
is_state initial initial = true
is_state established established = true
is_state mail_rcpt mail_rcpt = true
is_state mail_data mail_data = true
is_state _ _ = false

-- `alloc` says whether `malloc` succeeds. The result of a failure is handed to `memset` before it
-- is tested: `none`.
mail_matched : Bytes → Bool → Session → ℕ → Option Outcome
mail_matched address alloc session len =
    if not (is_state session.state established)
    then some (answer session len (codes "503\r\n"))
    else if alloc
    then some (
        answer
          (record session {
            state = mail_rcpt;
            envelope = record session.envelope { sender = some address };
          })
          len (codes "250 OK\r\n"))
    else none

unfoldable pub smtp_mail : Bytes → Bool → Session → ℕ → Option Outcome
unfolding mail_matched
smtp_mail command alloc session len = elim (match_mail_from command) [
  | none ↦ some (answer session len (codes "500\r\n"))
  | some address ↦ mail_matched address alloc session len
]

rcpt_matched : Bytes → Bool → Session → ℕ → Option Outcome
rcpt_matched address alloc session len =
    if not (is_state session.state mail_rcpt)
    then some (answer session len (codes "503\r\n"))
    else if alloc
    then some (
        answer
          (record session {
            envelope = record session.envelope {
              recipients = ring_add session.envelope.recipients address;
            };
          })
          len (codes "250\r\n"))
    else none

unfoldable pub smtp_rcpt : Bytes → Bool → Session → ℕ → Option Outcome
unfolding rcpt_matched
smtp_rcpt command alloc session len = elim (match_rcpt_to command) [
  | none ↦ some (answer session len (codes "500\r\n"))
  | some address ↦ rcpt_matched address alloc session len
]

unfoldable pub smtp_data : Bytes → Session → ℕ → Outcome
smtp_data command session len =
    if not (match_word (codes "DATA") command)
    then answer session len (codes "500\r\n")
    else if not (is_state session.state mail_rcpt)
    then answer session len (codes "503\r\n")
    else answer (record session { state = mail_data }) len (codes "354\r\n")

-- `return 0;` stands before the loops, so none of them runs.
unfoldable pub envelope_save : Envelope → ℕ
envelope_save envelope = 0

-- A text line leaves the reply buffer as it is.
unfoldable pub smtp_read_data : Bytes → Bool → Session → Bytes → ℕ → Outcome
unfolding envelope_save smtp_session_reset
smtp_read_data command alloc session reply len =
    if str_eq (codes ".") command
    then answer (smtp_session_reset session established) len
        (if ltb 0 (envelope_save session.envelope) then codes "500\r\n" else codes "250 OK\r\n")
    else if alloc
    then record {
      session = record session {
        envelope = record session.envelope { lines = ring_add session.envelope.lines command };
      };
      reply = reply;
      closing = false;
    }
    else answer session len (codes "500\r\n")

unfoldable pub smtp_reset : Bytes → Session → ℕ → Outcome
unfolding smtp_session_reset
smtp_reset command session len =
    if not (match_word (codes "RSET") command)
    then answer session len (codes "500\r\n")
    else answer
        (smtp_session_reset session
          (if is_state session.state initial then initial else established))
        len (codes "250 OK\r\n")

-- -1 in both branches.
unfoldable pub smtp_quit : Bytes → Session → ℕ → Outcome
unfolding smtp_free_session
smtp_quit command session len =
    if not (match_word (codes "QUIT") command)
    then record { session = session; reply = snprintf len (codes "500\r\n"); closing = true }
    else record {
      session = smtp_free_session session;
      reply = snprintf len (codes "221 OK\r\n");
      closing = true;
    }

abbrev pub has_prefix : Bytes → Bytes → Bool
has_prefix command word = strstartswith command word true

-- The chain of tests on a trimmed command, outside MAIL_DATA.
unfoldable pub dispatch : Bytes → Bool → Session → ℕ → Option Outcome
unfolding smtp_ehlo smtp_mail smtp_rcpt smtp_data smtp_reset smtp_quit
dispatch command alloc session len =
    if has_prefix command (codes "EHLO") || has_prefix command (codes "HELO")
    then some (smtp_ehlo session len)
    else if has_prefix command (codes "MAIL")
    then smtp_mail command alloc session len
    else if has_prefix command (codes "RCPT")
    then smtp_rcpt command alloc session len
    else if has_prefix command (codes "DATA")
    then some (smtp_data command session len)
    else if has_prefix command (codes "RSET")
    then some (smtp_reset command session len)
    else if has_prefix command (codes "QUIT")
    then some (smtp_quit command session len)
    else if has_prefix command (codes "VRFY") || has_prefix command (codes "VERIFY")
    then some (answer session len (codes "502 Not implemented\r\n"))
    else some (answer session len (codes "500 Unknown command\r\n"))

unfoldable pub smtp_process_command : Bytes → Bool → Session → Bytes → ℕ → Option Outcome
unfolding buffer_reset smtp_read_data dispatch
smtp_process_command command alloc session reply len =
    let s = buffer_reset session in
    if is_state s.state mail_data
    then some (smtp_read_data command alloc s reply len)
    else dispatch (strtrim command) alloc s len
