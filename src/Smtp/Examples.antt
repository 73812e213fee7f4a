-- ===== src/Smtp/Examples.antt =====
-- The theorems on server/src/smtp.c at concrete commands and sessions.
use iu7_pvs_cp.Base.{true, false, some, none, ◌≡◌, ◌↔◌, [], ◌∷◌, refl, arith, Bytes, codes}
use iu7_pvs_cp.StringUtils.{strtrim, strstartswith}
use iu7_pvs_cp.Smtp.Regex.{is_atom_char, match_mail_from}
use iu7_pvs_cp.Smtp.Regex.Address.{single, atom, dotted, IsMail}
use iu7_pvs_cp.Smtp.Regex.Paths.{CarriesMail, match_mail_from_iff}
use iu7_pvs_cp.Smtp.Session.{initial, established, mail_data, Session}
use iu7_pvs_cp.Smtp.Commands.{Outcome, smtp_process_command}
use iu7_pvs_cp.Smtp.Commands.Invariant.{IsValid, parts, smtp_process_command-IsValid}
use iu7_pvs_cp.Smtp.Commands.Protocol.{Transition, smtp_process_command-Transition}
use iu7_pvs_cp.Smtp.Commands.Transaction.{bracketed, process_all, transaction}

-- The mailbox "a@b.c".
abbrev short_mail : Bytes
short_mail = codes "a@b.c"

short_mail-IsMail : IsMail short_mail
unfolding is_atom_char
short_mail-IsMail = record {
  local = codes "a";
  domain = codes "b.c";
  local_domain = atom (single b'a' refl);
  domain_domain = dotted (single b'b' refl) (atom (single b'c' refl));
  whole = refl;
}

abbrev fresh : Session
fresh = parts [] 0 initial (record { recipients = []; lines = []; sender = none })

fresh-IsValid : IsValid fresh
fresh-IsValid = record { envelope_ok = (refl, refl, refl); counted = refl }

abbrev greeted : Outcome
greeted = record {
  session = parts [] 0 established (record { recipients = []; lines = []; sender = none });
  reply = codes "250\r\n";
  closing = false;
}

ehlo : smtp_process_command (codes "EHLO me") true fresh [] 256 ≡ some greeted
unfolding smtp_process_command strstartswith strtrim
ehlo = refl

smtp_process_command-IsValid_example : IsValid greeted.session
smtp_process_command-IsValid_example =
    smtp_process_command-IsValid (codes "EHLO me") true fresh [] 256 fresh-IsValid ehlo

smtp_process_command-Transition_example :
    Transition 256 [] initial false (codes "250\r\n") established
smtp_process_command-Transition_example =
    smtp_process_command-Transition (codes "EHLO me") true fresh [] 256 ehlo

match_mail_from_iff_example :
    (match_mail_from (codes "mail from:<a@b.c> SIZE=9") ≡ some short_mail) ↔ (
      (rest : Bytes) × CarriesMail
        (codes "MAIL FROM:<")
        (codes "mail from:<a@b.c> SIZE=9")
        short_mail
        rest)
match_mail_from_iff_example = match_mail_from_iff (codes "mail from:<a@b.c> SIZE=9") short_mail

transaction_example :
    process_all
      (bracketed (codes "MAIL FROM:<") short_mail
        ∷ bracketed (codes "RCPT TO:<") short_mail
        ∷ codes "DATA"
        ∷ codes "one"
        ∷ codes "two"
        ∷ codes "three"
        ∷ [])
      greeted.session
      []
      256
    ≡ some (
      parts [] 0 mail_data (record {
        recipients = short_mail ∷ [];
        lines = codes "one" ∷ codes "three" ∷ codes "two" ∷ [];
        sender = some short_mail;
      }),
      codes "354\r\n",
    )
transaction_example =
    transaction short_mail short_mail (codes "one") (codes "two" ∷ codes "three" ∷ []) [] 0 [] 256
      short_mail-IsMail short_mail-IsMail
      ((λ e. ground arith), ((λ e. ground arith), ((λ e. ground arith), tt)))
