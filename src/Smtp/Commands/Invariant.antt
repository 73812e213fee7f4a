-- ===== src/Smtp/Commands/Invariant.antt =====
-- What every session of server/src/smtp.c satisfies between commands.
use iu7_pvs_cp.Base.{
  ℕ, ◌+◌, Bool, true, false, List, [], ◌∷◌, Option, none, some, ◌≡◌, refl, sym, subst, Bytes, codes,
  if◌then◌else◌, All, length, Option-cases, Bool-cases, str_eq, inl, inr,
}
use iu7_pvs_cp.StringUtils.{strtrim}
use iu7_pvs_cp.Smtp.Regex.{match_mail_from, match_rcpt_to, match_word}
use iu7_pvs_cp.Smtp.Regex.Address.{IsMail}
use iu7_pvs_cp.Smtp.Regex.Paths.{match_mail_from_iff, match_rcpt_to_iff}
use iu7_pvs_cp.Smtp.Session.{
  SmtpState, initial, established, mail_rcpt, mail_data, Envelope, Session, ring_add, buffer_reset,
  smtp_session_reset,
}
use iu7_pvs_cp.Smtp.Commands.{
  Outcome, is_state, mail_matched, rcpt_matched, smtp_ehlo, smtp_mail, smtp_rcpt, smtp_data,
  smtp_read_data, smtp_reset, smtp_quit, dispatch, smtp_process_command,
}

abbrev pub total_length : List Bytes → ℕ
total_length [] = 0
total_length (x ∷ xs) = length x + total_length xs

abbrev pub HasSender : Envelope → Type 0
HasSender e = (a : Bytes) × (e.sender ≡ some a) × IsMail a

-- Without a transaction the envelope is empty. Within one it has a sender, all its addresses are
-- mailboxes, and it has text lines only in MAIL_DATA.
abbrev pub EnvelopeOk : SmtpState → Envelope → Type 0
EnvelopeOk initial e = (e.recipients ≡ []) × (e.lines ≡ []) × (e.sender ≡ none)
EnvelopeOk established e = (e.recipients ≡ []) × (e.lines ≡ []) × (e.sender ≡ none)
EnvelopeOk mail_rcpt e = HasSender e × All IsMail e.recipients × (e.lines ≡ [])
EnvelopeOk mail_data e = HasSender e × All IsMail e.recipients

pub record IsValid (s : Session) : Type 0 where
  pub envelope_ok : EnvelopeOk s.state s.envelope
  pub counted : s.buffer_size ≡ total_length s.buffer

-- A result that is a fault, or leaves a valid session.
pub data Keeps : Option Outcome → Type 0 where
  fault : Keeps none
  stays : {o : Outcome} → IsValid o.session → Keeps (some o)

smtp_session_reset-established : (s : Session) → IsValid (smtp_session_reset s established)
unfolding smtp_session_reset
smtp_session_reset-established s = record { envelope_ok = (refl, refl, refl); counted = refl }

pub smtp_session_reset-initial : (s : Session) → IsValid (smtp_session_reset s initial)
unfolding smtp_session_reset
smtp_session_reset-initial s = record { envelope_ok = (refl, refl, refl); counted = refl }

smtp_session_reset-IsValid :
    (s : Session) (b : Bool) → IsValid (smtp_session_reset s (if b then initial else established))
smtp_session_reset-IsValid s true = smtp_session_reset-initial s
smtp_session_reset-IsValid s false = smtp_session_reset-established s

buffer_reset-IsValid : (s : Session) → IsValid s → IsValid (buffer_reset s)
unfolding buffer_reset
buffer_reset-IsValid s v = record { envelope_ok = v.envelope_ok; counted = refl }

All-ring_add :
    (P : Bytes → Type 0) (xs : List Bytes) (x : Bytes) → All P xs → P x → All P (ring_add xs x)
All-ring_add P [] x h k = (k, tt)
All-ring_add P (y ∷ ys) x h k = (h.0, (k, h.1))

-- A session by its parts, so that a proof can split on the state.
abbrev pub parts : List Bytes → ℕ → SmtpState → Envelope → Session
parts buf size st env = record { buffer = buf; buffer_size = size; state = st; envelope = env }

module _ (buf : List Bytes) (size : ℕ) (env : Envelope) (len : ℕ)
    (counted : size ≡ total_length buf) where
  mail-Keeps :
      (st : SmtpState) (a : Bytes) (alloc : Bool)
      → EnvelopeOk st env
      → IsMail a
      → Keeps (mail_matched a alloc (parts buf size st env) len)
  unfolding mail_matched
  mail-Keeps established a true v m = stays (record {
    envelope_ok = ((a, refl, m), subst (All IsMail) (sym v.0) tt, v.1);
    counted = counted;
  })
  mail-Keeps established a false v m = fault
  mail-Keeps initial a alloc v m = stays (record { envelope_ok = v; counted = counted })
  mail-Keeps mail_rcpt a alloc v m = stays (record { envelope_ok = v; counted = counted })
  mail-Keeps mail_data a alloc v m = stays (record { envelope_ok = v; counted = counted })

  rcpt-Keeps :
      (st : SmtpState) (a : Bytes) (alloc : Bool)
      → EnvelopeOk st env
      → IsMail a
      → Keeps (rcpt_matched a alloc (parts buf size st env) len)
  unfolding rcpt_matched
  rcpt-Keeps mail_rcpt a true v m = stays (record {
    envelope_ok = (v.0, All-ring_add IsMail env.recipients a v.1 m, v.2);
    counted = counted;
  })
  rcpt-Keeps mail_rcpt a false v m = fault
  rcpt-Keeps initial a alloc v m = stays (record { envelope_ok = v; counted = counted })
  rcpt-Keeps established a alloc v m = stays (record { envelope_ok = v; counted = counted })
  rcpt-Keeps mail_data a alloc v m = stays (record { envelope_ok = v; counted = counted })

  data-IsValid :
      (st : SmtpState) (command : Bytes)
      → EnvelopeOk st env
      → IsValid (smtp_data command (parts buf size st env) len).session
  unfolding smtp_data
  data-IsValid mail_rcpt command v = elim (Bool-cases (match_word (codes "DATA") command)) [
    | inl e ↦ rw e (record { envelope_ok = (v.0, v.1); counted = counted })
    | inr e ↦ rw e (record { envelope_ok = v; counted = counted })
  ]
  data-IsValid initial command v = elim (Bool-cases (match_word (codes "DATA") command)) [
    | inl e ↦ rw e (record { envelope_ok = v; counted = counted })
    | inr e ↦ rw e (record { envelope_ok = v; counted = counted })
  ]
  data-IsValid _ command v = elim (Bool-cases (match_word (codes "DATA") command)) [
    | inl e ↦ rw e (record { envelope_ok = v; counted = counted })
    | inr e ↦ rw e (record { envelope_ok = v; counted = counted })
  ]

  read-IsValid :
      (command : Bytes) (alloc : Bool) (reply : Bytes)
      → EnvelopeOk mail_data env
      → IsValid (smtp_read_data command alloc (parts buf size mail_data env) reply len).session
  unfolding smtp_read_data
  read-IsValid command true reply v = elim (Bool-cases (str_eq (codes ".") command)) [
    | inl e ↦ rw e (smtp_session_reset-established (parts buf size mail_data env))
    | inr e ↦ rw e (record { envelope_ok = (v.0, v.1); counted = counted })
  ]
  read-IsValid command false reply v = elim (Bool-cases (str_eq (codes ".") command)) [
    | inl e ↦ rw e (smtp_session_reset-established (parts buf size mail_data env))
    | inr e ↦ rw e (record { envelope_ok = (v.0, v.1); counted = counted })
  ]

smtp_mail-Keeps :
    (command : Bytes) (alloc : Bool) (s : Session) (len : ℕ)
    → IsValid s
    → Keeps (smtp_mail command alloc s len)
unfolding smtp_mail
smtp_mail-Keeps command alloc s len v = elim (Option-cases (match_mail_from command)) [
  | inl e ↦ rw (e, smtp_mail) (stays v)
  | inr (a, e) ↦
      rw (e, smtp_mail)
        (mail-Keeps s.buffer s.buffer_size s.envelope len v.counted s.state a alloc v.envelope_ok
          ((match_mail_from_iff command a).0 e).1.mailbox)
]

smtp_rcpt-Keeps :
    (command : Bytes) (alloc : Bool) (s : Session) (len : ℕ)
    → IsValid s
    → Keeps (smtp_rcpt command alloc s len)
unfolding smtp_rcpt
smtp_rcpt-Keeps command alloc s len v = elim (Option-cases (match_rcpt_to command)) [
  | inl e ↦ rw (e, smtp_rcpt) (stays v)
  | inr (a, e) ↦
      rw (e, smtp_rcpt)
        (rcpt-Keeps s.buffer s.buffer_size s.envelope len v.counted s.state a alloc v.envelope_ok
          ((match_rcpt_to_iff command a).0 e).mailbox)
]

smtp_reset-IsValid :
    (command : Bytes) (s : Session) (len : ℕ)
    → IsValid s
    → IsValid (smtp_reset command s len).session
unfolding smtp_reset
smtp_reset-IsValid command s len v = elim (Bool-cases (match_word (codes "RSET") command)) [
  | inl e ↦ rw e (smtp_session_reset-IsValid s (is_state s.state initial))
  | inr e ↦ rw e v
]

smtp_quit-IsValid :
    (command : Bytes) (s : Session) (len : ℕ)
    → IsValid s
    → IsValid (smtp_quit command s len).session
unfolding smtp_quit
smtp_quit-IsValid command s len v = elim (Bool-cases (match_word (codes "QUIT") command)) [
  | inl e ↦ rw e (smtp_session_reset-initial s)
  | inr e ↦ rw e v
]

smtp_ehlo-IsValid : (s : Session) (len : ℕ) → IsValid (smtp_ehlo s len).session
unfolding smtp_ehlo
smtp_ehlo-IsValid s len = smtp_session_reset-established s

Keeps-if : (b : Bool) (x y : Option Outcome) → Keeps x → Keeps y → Keeps (if b then x else y)
Keeps-if true x y h k = h
Keeps-if false x y h k = k

ruleset handlers = (
  Keeps-if, stays, smtp_ehlo-IsValid, smtp_mail-Keeps, smtp_rcpt-Keeps, smtp_reset-IsValid,
  smtp_quit-IsValid,
)

smtp_data-IsValid :
    (command : Bytes) (s : Session) (len : ℕ)
    → IsValid s
    → IsValid (smtp_data command s len).session
smtp_data-IsValid command s len v =
    data-IsValid s.buffer s.buffer_size s.envelope len v.counted s.state command v.envelope_ok

dispatch-Keeps :
    (command : Bytes) (alloc : Bool) (s : Session) (len : ℕ)
    → IsValid s
    → Keeps (dispatch command alloc s len)
unfolding dispatch
dispatch-Keeps command alloc s len v = search (handlers, smtp_data-IsValid) depth 12

process-parts :
    (st : SmtpState) (s : Session) (command : Bytes) (alloc : Bool) (reply : Bytes) (len : ℕ)
    → IsValid (parts s.buffer s.buffer_size st s.envelope)
    → Keeps
        (smtp_process_command command alloc (parts s.buffer s.buffer_size st s.envelope) reply len)
unfolding smtp_process_command
process-parts mail_data s command alloc reply len v =
    stays (read-IsValid [] 0 s.envelope len refl command alloc reply v.envelope_ok)
process-parts initial s command alloc reply len v =
    dispatch-Keeps (strtrim command) alloc _ len (buffer_reset-IsValid _ v)
process-parts _ s command alloc reply len v =
    dispatch-Keeps (strtrim command) alloc _ len (buffer_reset-IsValid _ v)

inside : {o : Outcome} → Keeps (some o) → IsValid o.session
inside (stays v) = v

-- If the session is valid and `smtp_process_command` completes a command, the session is valid
-- behind it: what the envelope holds fits the state, every mailbox in it is one of the grammar,
-- and `buffer_size` is the length of the buffer.
pub smtp_process_command-IsValid :
    (command : Bytes) (alloc : Bool) (s : Session) (reply : Bytes) (len : ℕ) {o : Outcome}
    → IsValid s
    → smtp_process_command command alloc s reply len ≡ some o
    → IsValid o.session
smtp_process_command-IsValid command alloc s reply len v e =
    inside (subst Keeps e (process-parts s.state s command alloc reply len v))
