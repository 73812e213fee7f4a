-- ===== src/Smtp/Commands/Total.antt =====
-- `smtp_process_command` of server/src/smtp.c does not fail while memory lasts.
use iu7_pvs_cp.Base.{
  ℕ, Bool, true, false, Option, none, some, Bytes, ◌≢◌, inl, inr, Option-cases, if◌then◌else◌,
}
use iu7_pvs_cp.Smtp.Session.{Session, buffer_reset}
use iu7_pvs_cp.StringUtils.{strtrim}
use iu7_pvs_cp.Smtp.Regex.{match_mail_from, match_rcpt_to}
use iu7_pvs_cp.Smtp.Commands.{
  Outcome, mail_matched, smtp_mail, rcpt_matched, smtp_rcpt, dispatch, smtp_process_command,
}

-- There is a result.
data Completes : Option Outcome → Type 0 where
  completes : {o : Outcome} → Completes (some o)

Completes-if :
    (b : Bool) (x y : Option Outcome) → Completes x → Completes y → Completes (if b then x else y)
Completes-if true x y h k = h
Completes-if false x y h k = k

mail-Completes : (a : Bytes) (s : Session) (len : ℕ) → Completes (mail_matched a true s len)
unfolding mail_matched
mail-Completes a s len = search (Completes-if, completes)

smtp_mail-Completes : (c : Bytes) (s : Session) (len : ℕ) → Completes (smtp_mail c true s len)
unfolding smtp_mail
smtp_mail-Completes c s len = elim (Option-cases (match_mail_from c)) [
  | inl e ↦ rw (e, smtp_mail) completes
  | inr (a, e) ↦ rw (e, smtp_mail) (mail-Completes a s len)
]

rcpt-Completes : (a : Bytes) (s : Session) (len : ℕ) → Completes (rcpt_matched a true s len)
unfolding rcpt_matched
rcpt-Completes a s len = search (Completes-if, completes)

smtp_rcpt-Completes : (c : Bytes) (s : Session) (len : ℕ) → Completes (smtp_rcpt c true s len)
unfolding smtp_rcpt
smtp_rcpt-Completes c s len = elim (Option-cases (match_rcpt_to c)) [
  | inl e ↦ rw (e, smtp_rcpt) completes
  | inr (a, e) ↦ rw (e, smtp_rcpt) (rcpt-Completes a s len)
]

dispatch-Completes : (c : Bytes) (s : Session) (len : ℕ) → Completes (dispatch c true s len)
unfolding dispatch
dispatch-Completes c s len =
    search (Completes-if, completes, smtp_mail-Completes, smtp_rcpt-Completes) depth 12

Completes-ne_none : {o : Option Outcome} → Completes o → o ≢ none
Completes-ne_none completes h = cc

-- While `malloc` succeeds, every command in every state is completed: `smtp_process_command` has
-- a result and no fault.
pub smtp_process_command-ne_none :
    (command : Bytes) (s : Session) (reply : Bytes) (len : ℕ)
    → smtp_process_command command true s reply len ≢ none
unfolding smtp_process_command
smtp_process_command-ne_none command s reply len =
    Completes-ne_none
      (Completes-if _ _ _ completes (dispatch-Completes (strtrim command) (buffer_reset s) len))
