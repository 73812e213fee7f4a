-- ===== src/Smtp/Session.antt =====
-- The session of server/include/smtp.h and the functions of server/src/smtp.c that release it.
-- A circular list is the texts of its elements in the order of `list_foreach`; [] is NULL.
use iu7_pvs_cp.Base.{ℕ, ◌-◌, List, [], ◌∷◌, ◌++◌, Option, none, Bytes, take, codes}

pub data SmtpState : Type 0 where
  initial established mail_rcpt mail_data : SmtpState

pub record Envelope : Type 0 where
  pub recipients : List Bytes
  pub lines : List Bytes  -- `data`
  pub sender : Option Bytes  -- `from`

pub record Session : Type 0 where
  pub buffer : List Bytes
  pub buffer_size : ℕ
  pub state : SmtpState
  pub envelope : Envelope

-- A new element is alone, or `list_add` puts it behind the head.
abbrev pub ring_add : List Bytes → Bytes → List Bytes
ring_add [] x = x ∷ []
ring_add (head ∷ rest) x = head ∷ x ∷ rest

-- `list_add_tail`
abbrev pub ring_add_tail : List Bytes → Bytes → List Bytes
ring_add_tail ring x = ring ++ x ∷ []

-- snprintf(reply, len, text) with no conversions, for 0 < len.
abbrev pub snprintf : ℕ → Bytes → Bytes
snprintf len text = take (len - 1) text

unfoldable pub envelope_free : Envelope → Envelope
envelope_free envelope = record { recipients = []; lines = []; sender = none }

unfoldable pub buffer_reset : Session → Session
buffer_reset session = record session { buffer = []; buffer_size = 0 }

unfoldable pub smtp_session_reset : Session → SmtpState → Session
unfolding buffer_reset envelope_free
smtp_session_reset session state =
    let s = record (buffer_reset session) { state = state } in
    record s { envelope = envelope_free s.envelope }

-- The session and the reply.
unfoldable pub smtp_start_session : Session → ℕ → Session × Bytes
unfolding smtp_session_reset
smtp_start_session session len =
    (smtp_session_reset session SmtpState.initial, snprintf len (codes "220\r\n"))

unfoldable pub smtp_free_session : Session → Session
unfolding smtp_session_reset
smtp_free_session session = smtp_session_reset session SmtpState.initial
