-- ===== src/Smtp/Commands/Protocol.antt =====
-- The protocol that the handlers of server/src/smtp.c implement, as a transition relation.
use iu7_pvs_cp.Base.{
  ℕ, Bool, true, false, List, [], Option, none, some, ◌≡◌, ◌≢◌, ◌⊎◌, refl, subst, Bytes, codes,
  if◌then◌else◌, Option-cases, Bool-cases, inl, inr, str_eq,
}
use iu7_pvs_cp.StringUtils.{strtrim}
use iu7_pvs_cp.Smtp.Regex.{match_mail_from, match_rcpt_to, match_word}
use iu7_pvs_cp.Smtp.Session.{
  SmtpState, initial, established, mail_rcpt, mail_data, Envelope, Session, snprintf,
}
use iu7_pvs_cp.Smtp.Commands.{
  Outcome, is_state, mail_matched, rcpt_matched, smtp_ehlo, smtp_mail, smtp_rcpt, smtp_data,
  smtp_read_data, smtp_reset, smtp_quit, dispatch, smtp_process_command,
}
use iu7_pvs_cp.Smtp.Commands.Invariant.{parts}

-- The texts that refuse a command.
pub data IsRefusal : Bytes → Type 0 where
  syntax : IsRefusal (codes "500\r\n")
  sequence : IsRefusal (codes "503\r\n")
  not_implemented : IsRefusal (codes "502 Not implemented\r\n")
  unknown : IsRefusal (codes "500 Unknown command\r\n")

-- One command of a client: the state before, whether the connection closes, the reply and the
-- state after. `before` is the text that the reply buffer held.
pub data Transition (len : ℕ) (before : Bytes) (st : SmtpState) (closing : Bool) (reply : Bytes)
    (st' : SmtpState) : Type 0 where
  hello :
      st ≢ mail_data
      → closing ≡ false
      → reply ≡ snprintf len (codes "250\r\n")
      → st' ≡ established
      → Transition len before st closing reply st'
  mail :
      st ≡ established
      → closing ≡ false
      → reply ≡ snprintf len (codes "250 OK\r\n")
      → st' ≡ mail_rcpt
      → Transition len before st closing reply st'
  rcpt :
      st ≡ mail_rcpt
      → closing ≡ false
      → reply ≡ snprintf len (codes "250\r\n")
      → st' ≡ mail_rcpt
      → Transition len before st closing reply st'
  start_text :
      st ≡ mail_rcpt
      → closing ≡ false
      → reply ≡ snprintf len (codes "354\r\n")
      → st' ≡ mail_data
      → Transition len before st closing reply st'
  text_line :
      st ≡ mail_data
      → closing ≡ false
      → reply ≡ before
      → st' ≡ mail_data
      → Transition len before st closing reply st'
  line_lost :
      st ≡ mail_data
      → closing ≡ false
      → reply ≡ snprintf len (codes "500\r\n")
      → st' ≡ mail_data
      → Transition len before st closing reply st'
  end_text :
      st ≡ mail_data
      → closing ≡ false
      → reply ≡ snprintf len (codes "250 OK\r\n")
      → st' ≡ established
      → Transition len before st closing reply st'
  reset :
      st ≢ mail_data
      → closing ≡ false
      → reply ≡ snprintf len (codes "250 OK\r\n")
      → (st ≡ initial × (st' ≡ initial)) ⊎ (st ≢ initial × (st' ≡ established))
      → Transition len before st closing reply st'
  quit :
      st ≢ mail_data
      → closing ≡ true
      → reply ≡ snprintf len (codes "221 OK\r\n")
      → st' ≡ initial
      → Transition len before st closing reply st'
  refused :
      {text : Bytes}
      → st ≢ mail_data
      → IsRefusal text
      → reply ≡ snprintf len text
      → st' ≡ st
      → Transition len before st closing reply st'

-- A result that is a fault, or the outcome of a transition from `st`.
data Follows (len : ℕ) (before : Bytes) (st : SmtpState) : Option Outcome → Type 0 where
  fault : Follows len before st none
  follows :
      {o : Outcome}
      → Transition len before st o.closing o.reply o.session.state
      → Follows len before st (some o)

is_state_eq : (a b : SmtpState) → is_state a b ≡ true → a ≡ b
is_state_eq initial initial h = refl
is_state_eq established established h = refl
is_state_eq mail_rcpt mail_rcpt h = refl
is_state_eq mail_data mail_data h = refl
is_state_eq _ _ h = cc

is_state_ne : (a b : SmtpState) → is_state a b ≡ false → a ≢ b
is_state_ne initial initial h = cc
is_state_ne established established h = cc
is_state_ne mail_rcpt mail_rcpt h = cc
is_state_ne mail_data mail_data h = cc
is_state_ne _ _ h = λ e. cc

module _ (len : ℕ) (before : Bytes) (s : Session) (outside : s.state ≢ mail_data) where
  abbrev After : Option Outcome → Type 0
  After = Follows len before s.state

  refusal :
      {text : Bytes}
      → IsRefusal text
      → (closing : Bool)
      → After (some (record { session = s; reply = snprintf len text; closing = closing }))
  refusal r closing = follows (refused outside r refl refl)

  After-if : (b : Bool) (x y : Option Outcome) → After x → After y → After (if b then x else y)
  After-if true x y h k = h
  After-if false x y h k = k

  ehlo-After : After (some (smtp_ehlo s len))
  unfolding smtp_ehlo
  ehlo-After = follows (hello outside refl refl refl)

  mail-After : (command : Bytes) (alloc : Bool) → After (smtp_mail command alloc s len)
  unfolding smtp_mail
  mail-After command alloc = elim (Option-cases (match_mail_from command)) [
    | inl e ↦ rw (e, smtp_mail) (refusal syntax false)
    | inr (a, e) ↦ rw (e, smtp_mail) (matched a alloc)
  ]
    where
      opened :
          (a : Bytes) (alloc : Bool)
          → is_state s.state established ≡ true
          → After (mail_matched a alloc s len)
      opened a true h = rw (h, mail_matched) (follows (mail (is_state_eq _ _ h) refl refl refl))
      opened a false h = rw (h, mail_matched) fault

      matched : (a : Bytes) (alloc : Bool) → After (mail_matched a alloc s len)
      matched a alloc = elim (Bool-cases (is_state s.state established)) [
        | inl h ↦ opened a alloc h
        | inr h ↦ rw (h, mail_matched) (refusal sequence false)
      ]

  rcpt-After : (command : Bytes) (alloc : Bool) → After (smtp_rcpt command alloc s len)
  unfolding smtp_rcpt
  rcpt-After command alloc = elim (Option-cases (match_rcpt_to command)) [
    | inl e ↦ rw (e, smtp_rcpt) (refusal syntax false)
    | inr (a, e) ↦ rw (e, smtp_rcpt) (matched a alloc)
  ]
    where
      opened :
          (a : Bytes) (alloc : Bool)
          → is_state s.state mail_rcpt ≡ true
          → After (rcpt_matched a alloc s len)
      opened a true h =
          rw (h, rcpt_matched) (follows (rcpt (is_state_eq _ _ h) refl refl (is_state_eq _ _ h)))
      opened a false h = rw (h, rcpt_matched) fault

      matched : (a : Bytes) (alloc : Bool) → After (rcpt_matched a alloc s len)
      matched a alloc = elim (Bool-cases (is_state s.state mail_rcpt)) [
        | inl h ↦ opened a alloc h
        | inr h ↦ rw (h, rcpt_matched) (refusal sequence false)
      ]

  data-After : (command : Bytes) → After (some (smtp_data command s len))
  unfolding smtp_data
  data-After command = elim (Bool-cases (match_word (codes "DATA") command)) [
    | inr e ↦ rw (e, smtp_data) (refusal syntax false)
    | inl e ↦ elim (Bool-cases (is_state s.state mail_rcpt)) [
      | inr h ↦ rw (e, h, smtp_data) (refusal sequence false)
      | inl h ↦ rw (e, h, smtp_data) (follows (start_text (is_state_eq _ _ h) refl refl refl))
    ]
  ]

  reset-After : (command : Bytes) → After (some (smtp_reset command s len))
  unfolding smtp_reset
  reset-After command = elim (Bool-cases (match_word (codes "RSET") command)) [
    | inr e ↦ rw (e, smtp_reset) (refusal syntax false)
    | inl e ↦ elim (Bool-cases (is_state s.state initial)) [
      | inr h ↦
          rw (e, h, smtp_reset) (follows (reset outside refl refl (inr (is_state_ne _ _ h, refl))))
      | inl h ↦
          rw (e, h, smtp_reset) (follows (reset outside refl refl (inl (is_state_eq _ _ h, refl))))
    ]
  ]

  quit-After : (command : Bytes) → After (some (smtp_quit command s len))
  unfolding smtp_quit
  quit-After command = elim (Bool-cases (match_word (codes "QUIT") command)) [
    | inr e ↦ rw (e, smtp_quit) (refusal syntax true)
    | inl e ↦ rw (e, smtp_quit) (follows (quit outside refl refl refl))
  ]

  dispatch-After : (command : Bytes) (alloc : Bool) → After (dispatch command alloc s len)
  unfolding dispatch
  dispatch-After command alloc = After-if _ _ _ ehlo-After (
      After-if _ _ _ (mail-After command alloc) (
        After-if _ _ _ (rcpt-After command alloc) (
          After-if _ _ _ (data-After command) (
            After-if _ _ _ (reset-After command) (
              After-if _ _ _ (quit-After command)
                (After-if _ _ _ (refusal not_implemented false) (refusal unknown false)))))))

read-Follows :
    (len : ℕ) (before : Bytes) (buf : List Bytes) (size : ℕ) (env : Envelope) (command : Bytes)
    (alloc : Bool)
    → Follows len before mail_data
        (some (smtp_read_data command alloc (parts buf size mail_data env) before len))
unfolding smtp_read_data
read-Follows len before buf size env command true = elim (Bool-cases (str_eq (codes ".") command)) [
  | inl e ↦ rw (e, smtp_read_data) (follows (end_text refl refl refl refl))
  | inr e ↦ rw (e, smtp_read_data) (follows (text_line refl refl refl refl))
]
read-Follows len before buf size env command false =
    elim (Bool-cases (str_eq (codes ".") command)) [
      | inl e ↦ rw (e, smtp_read_data) (follows (end_text refl refl refl refl))
      | inr e ↦ rw (e, smtp_read_data) (follows (line_lost refl refl refl refl))
    ]

process-parts :
    (st : SmtpState) (s : Session) (command : Bytes) (alloc : Bool) (reply : Bytes) (len : ℕ)
    → Follows len reply st
        (smtp_process_command command alloc (parts s.buffer s.buffer_size st s.envelope) reply len)
unfolding smtp_process_command
process-parts mail_data s command alloc reply len =
    read-Follows len reply [] 0 s.envelope command alloc
process-parts initial s command alloc reply len =
    dispatch-After len reply (parts [] 0 initial s.envelope) (cc) (strtrim command) alloc
process-parts established s command alloc reply len =
    dispatch-After len reply (parts [] 0 established s.envelope) (cc) (strtrim command) alloc
process-parts mail_rcpt s command alloc reply len =
    dispatch-After len reply (parts [] 0 mail_rcpt s.envelope) (cc) (strtrim command) alloc

followed :
    {len : ℕ} {before : Bytes} {st : SmtpState} {o : Outcome}
    → Follows len before st (some o)
    → Transition len before st o.closing o.reply o.session.state
followed (follows t) = t

-- Every command that `smtp_process_command` completes is a transition of the protocol: the
-- state, the reply and the closing of the connection change only together, as the relation lists
-- them.
pub smtp_process_command-Transition :
    (command : Bytes) (alloc : Bool) (s : Session) (reply : Bytes) (len : ℕ) {o : Outcome}
    → smtp_process_command command alloc s reply len ≡ some o
    → Transition len reply s.state o.closing o.reply o.session.state
smtp_process_command-Transition command alloc s reply len {o} e =
    followed (subst (Follows len reply s.state) e (process-parts s.state s command alloc reply len))
