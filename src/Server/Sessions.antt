-- ===== src/Server/Sessions.antt =====
-- The session through a read of server/src/server.c: it stays valid, and what is behind QUIT.
use iu7_pvs_cp.Base.{
  ℕ, zero, suc, ◌+◌, Bool, true, false, List, [], ◌∷◌, ◌++◌, Option, none, some, ◌≡◌, ◌≢◌, refl, ap,
  sym, ◌∙◌, Bytes, codes, length, take, drop, arith, Bool-cases, Option-cases, inl, inr,
  if◌then◌else◌,
}
use iu7_pvs_cp.StringUtils.{strcrlf, strtrim, strstartswith}
use iu7_pvs_cp.Smtp.Session.{SmtpState, initial, established, mail_rcpt, mail_data, Envelope}
use iu7_pvs_cp.Smtp.Commands.{smtp_process_command}
use iu7_pvs_cp.Smtp.Commands.Invariant.{IsValid, parts, total_length, smtp_process_command-IsValid}
use iu7_pvs_cp.Server.{
  reply_max_len, Progress, Served, fault, out_of_fuel, served, strcat_all, add_piece, store_piece,
  on_outcome, one_command, after_command, on_crlf, command_loop, read_client,
}
use iu7_pvs_cp.Server.Lines.{crlf, command_loop-line}
use iu7_pvs_cp.Server.Pieces.{at_start}

-- A result that is no progress, or leaves a valid session.
data KeepsCommand : Option Progress → Type 0 where
  failed : KeepsCommand none
  goes_on : {p : Progress} → IsValid p.session → KeepsCommand (some p)

-- The same of a whole read.
pub data Keeps : Served → Type 0 where
  faulty : Keeps fault
  unfinished : Keeps out_of_fuel
  stays : {p : Progress} → IsValid p.session → Keeps (served p)

total_length-add_piece :
    (ls : List Bytes) (l : Bytes) → total_length (add_piece ls l) ≡ total_length ls + length l
total_length-add_piece [] l = omega arith
total_length-add_piece (x ∷ []) l = omega arith
total_length-add_piece (x ∷ y ∷ ys) l = omega (arith, total_length-add_piece (y ∷ ys) l)

store_piece-Keeps :
    (alloc : Bool) (p : Progress) (start : Bytes)
    → IsValid p.session
    → Keeps (store_piece alloc p start)
unfolding store_piece
store_piece-Keeps false p start v = stays v
store_piece-Keeps true p start v = elim (Bool-cases p.freed) [
  | inl e ↦ rw e faulty
  | inr e ↦ rw e (
      stays (record {
        envelope_ok = v.envelope_ok;
        counted =
            ap (λ n. n + length start) v.counted
            ∙ sym (total_length-add_piece p.session.buffer start);
      }))
]

on_outcome-KeepsCommand :
    (p : Progress) (command : Bytes) (alloc : Bool)
    → IsValid p.session
    → KeepsCommand
        (on_outcome p (smtp_process_command command alloc p.session p.reply reply_max_len))
unfolding on_outcome
on_outcome-KeepsCommand p command alloc v =
    elim (Option-cases (smtp_process_command command alloc p.session p.reply reply_max_len)) [
      | inl e ↦ rw (e, on_outcome) failed
      | inr (o, e) ↦
          rw (e, on_outcome)
            (goes_on
              (smtp_process_command-IsValid command alloc p.session p.reply reply_max_len v e))
    ]

KeepsCommand-if :
    (b : Bool) (x y : Option Progress)
    → KeepsCommand x
    → KeepsCommand y
    → KeepsCommand (if b then x else y)
KeepsCommand-if true x y h k = h
KeepsCommand-if false x y h k = k

one_command-KeepsCommand :
    (alloc : Bool) (p : Progress) (piece : Bytes)
    → IsValid p.session
    → KeepsCommand (one_command alloc p piece)
unfolding one_command
one_command-KeepsCommand alloc p piece v =
    search (KeepsCommand-if, failed, on_outcome-KeepsCommand) depth 8

after_command-Keeps :
    (o : Option Progress) (next : Progress → Served)
    → KeepsCommand o
    → ((q : Progress) → IsValid q.session → Keeps (next q))
    → Keeps (after_command o next)
after_command-Keeps _ next failed h = faulty
after_command-Keeps _ next (goes_on v) h = h _ v

on_crlf-Keeps :
    (alloc : Bool) (p : Progress) (start : Bytes) (o : Option ℕ) (next : Progress → Bytes → Served)
    → IsValid p.session
    → ((q : Progress) (rest : Bytes) → IsValid q.session → Keeps (next q rest))
    → Keeps (on_crlf alloc p start o next)
unfolding on_crlf
on_crlf-Keeps alloc p start none next v h = store_piece-Keeps alloc p start v
on_crlf-Keeps alloc p start (some n) next v h =
    after_command-Keeps (one_command alloc p (take n start)) _
      (one_command-KeepsCommand alloc p (take n start) v) (λ q w. h q (drop (n + 2) start) w)

-- If the session is valid, it is valid behind the loop over a read, whatever the bytes, unless
-- the loop runs into a fault or out of fuel.
pub command_loop-Keeps :
    (fuel : ℕ) (alloc : Bool) (p : Progress) (start : Bytes)
    → IsValid p.session
    → Keeps (command_loop fuel alloc p start)
unfolding command_loop
command_loop-Keeps zero alloc p start v = unfinished
command_loop-Keeps (suc fuel) alloc p [] v = stays v
command_loop-Keeps (suc fuel) alloc p (c ∷ cs) v =
    on_crlf-Keeps alloc p (c ∷ cs) (strcrlf (c ∷ cs)) _ v
      (λ q rest w. command_loop-Keeps fuel alloc q rest w)

-- The session was freed: whatever is left is a fault.
on_crlf-freed :
    (p : Progress) (start : Bytes) (o : Option ℕ) (next : Progress → Bytes → Served)
    → p.freed ≡ true
    → on_crlf true p start o next ≡ fault
unfolding on_crlf store_piece one_command
on_crlf-freed p start none next f = rw f refl
on_crlf-freed p start (some n) next f = rw f refl

command_loop-freed :
    (fuel : ℕ) (p : Progress) (c : ℕ) (cs : Bytes)
    → p.freed ≡ true
    → command_loop (suc fuel) true p (c ∷ cs) ≡ fault
unfolding command_loop
command_loop-freed fuel p c cs f = on_crlf-freed p (c ∷ cs) (strcrlf (c ∷ cs)) _ f

abbrev pub quit_progress : Progress
quit_progress = record {
  session = parts [] 0 initial (record { recipients = []; lines = []; sender = none });
  freed = true;
  reply = codes "221 OK\r\n";
  sent = codes "221 OK\r\n" ∷ [];
}

one_command-quit :
    (st : SmtpState) (env : Envelope)
    → st ≢ mail_data
    → one_command true (at_start (parts [] 0 st env)) (codes "QUIT") ≡ some quit_progress
unfolding one_command on_outcome smtp_process_command strstartswith strtrim strcat_all
one_command-quit initial env h = refl
one_command-quit established env h = refl
one_command-quit mail_rcpt env h = refl
one_command-quit mail_data env h = absurd (h refl)

-- A read that is QUIT alone.
pub read_client_quit :
    (fuel : ℕ) (st : SmtpState) (env : Envelope)
    → st ≢ mail_data
    → read_client (suc (suc fuel)) true (parts [] 0 st env) (codes "QUIT" ++ crlf [])
      ≡ served quit_progress
unfolding read_client command_loop
read_client_quit fuel st env h =
    command_loop-line (suc fuel) true (at_start (parts [] 0 st env)) (codes "QUIT") []
      ((λ e. omega arith), ((λ e. omega arith), ((λ e. omega arith), ((λ e. omega arith), tt))))
    ∙ ap (λ o. after_command o (λ q. command_loop (suc fuel) true q [])) (one_command-quit st env h)

-- Outside the text of a mail, with nothing kept and while memory lasts, bytes behind QUIT in one
-- read are a fault: the freed session is used.
pub read_client-quit :
    (fuel : ℕ) (st : SmtpState) (env : Envelope) (c : ℕ) (cs : Bytes)
    → st ≢ mail_data
    → read_client (suc (suc fuel)) true (parts [] 0 st env) (codes "QUIT" ++ crlf (c ∷ cs)) ≡ fault
unfolding read_client
read_client-quit fuel st env c cs h =
    command_loop-line (suc fuel) true (at_start (parts [] 0 st env)) (codes "QUIT") (c ∷ cs)
      ((λ e. omega arith), ((λ e. omega arith), ((λ e. omega arith), ((λ e. omega arith), tt))))
    ∙ ap (λ o. after_command o (λ q. command_loop (suc fuel) true q (c ∷ cs)))
        (one_command-quit st env h)
    ∙ command_loop-freed fuel quit_progress c cs refl
