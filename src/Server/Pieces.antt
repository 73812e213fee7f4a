-- ===== src/Server/Pieces.antt =====
-- Commands that arrive in pieces: what server/src/server.c keeps between two reads.
use iu7_pvs_cp.Base.{
  ℕ, suc, ◌+◌, true, false, List, [], ◌∷◌, ◌++◌, Option, none, some, ◌≡◌, ◌≢◌, refl, ap, sym, ◌∙◌,
  subst, Bytes, length, length-append, arith, append_assoc, append-nil, le→not-ltb,
}
use iu7_pvs_cp.StringUtils.{crlf_loop, strcrlf}
use iu7_pvs_cp.StringUtils.Crlf.{NoReturn, crlf_loop-skip, strcrlf-none}
use iu7_pvs_cp.Smtp.Session.{SmtpState, Envelope, Session}
use iu7_pvs_cp.Smtp.Commands.{Outcome, smtp_process_command}
use iu7_pvs_cp.Smtp.Commands.Invariant.{IsValid, parts, total_length}
use iu7_pvs_cp.Smtp.Commands.Total.{smtp_process_command-ne_none}
use iu7_pvs_cp.Server.{
  reply_max_len, Progress, Served, served, strcat_all, add_piece, store_piece, on_outcome,
  one_command, after_command, on_crlf, command_loop, read_client,
}
use iu7_pvs_cp.Server.Lines.{crlf, command_loop-line}

-- The variables of the loop before its first round.
abbrev pub at_start : Session → Progress
at_start s = record { session = s; freed = false; reply = []; sent = [] }

length-strcat_all : (ls : List Bytes) → length (strcat_all ls) ≡ total_length ls
unfolding strcat_all
length-strcat_all [] = refl
length-strcat_all (l ∷ ls) = omega (arith, length-append l (strcat_all ls), length-strcat_all ls)

-- With a buffer size that is the length of what is kept, `command` has room for all of it.
pub one_command-fits :
    (p : Progress) (piece : Bytes)
    → p.freed ≡ false
    → p.session.buffer_size ≡ total_length p.session.buffer
    → one_command true p piece
      ≡ on_outcome p (
          smtp_process_command
            (strcat_all p.session.buffer ++ piece)
            true
            p.session
            p.reply
            reply_max_len)
unfolding one_command
one_command-fits p piece f c =
    let b = strcat_all p.session.buffer in
    let l : length (b ++ piece) ≡ length piece + p.session.buffer_size =
      omega (arith, length-append b piece, length-strcat_all p.session.buffer) in
    rw f (
      rw (le→not-ltb (length piece + p.session.buffer_size) (length (b ++ piece)) (omega arith))
        refl)

on_outcome-ne_none : (p : Progress) (o : Option Outcome) → o ≢ none → on_outcome p o ≢ none
unfolding on_outcome
on_outcome-ne_none p none h = absurd (h refl)
on_outcome-ne_none p (some o) h = λ e. cc

-- On a valid session that was not freed, while memory lasts, a command has no fault: `command`
-- has room for what was kept and for the new piece.
pub one_command-ne_none :
    (p : Progress) (piece : Bytes)
    → p.freed ≡ false
    → IsValid p.session
    → one_command true p piece ≢ none
one_command-ne_none p piece f v =
    subst (λ o. o ≢ none) (sym (one_command-fits p piece f v.counted))
      (on_outcome-ne_none p _ (
        smtp_process_command-ne_none (strcat_all p.session.buffer ++ piece) p.session p.reply
          reply_max_len))

on_outcome-sent :
    (p q : Progress) (o : Option Outcome) → p.sent ≡ q.sent → on_outcome p o ≡ on_outcome q o
unfolding on_outcome
on_outcome-sent p q none e = refl
on_outcome-sent p q (some o) e = rw e refl

-- A session that keeps one piece.
abbrev pub held : Bytes → SmtpState → Envelope → Session
held a st env = parts (a ∷ []) (length a) st env

one_command-held :
    (a b : Bytes) (st : SmtpState) (env : Envelope)
    → one_command true (at_start (held a st env)) b
      ≡ one_command true (at_start (parts [] 0 st env)) (a ++ b)
unfolding smtp_process_command strcat_all
one_command-held a b st env =
    one_command-fits (at_start (held a st env)) b refl (omega arith)
    ∙ on_outcome-sent (at_start (held a st env)) (at_start (parts [] 0 st env)) _ refl
    ∙ ap
        (λ l.
          on_outcome (at_start (parts [] 0 st env))
            (smtp_process_command (l ++ b) true (parts [] 0 st env) [] reply_max_len))
        (append-nil a)
    ∙ sym (one_command-fits (at_start (parts [] 0 st env)) (a ++ b) refl refl)

read_client-piece :
    (fuel : ℕ) (c : ℕ) (cs : Bytes) (st : SmtpState) (env : Envelope)
    → NoReturn (c ∷ cs)
    → read_client (suc fuel) true (parts [] 0 st env) (c ∷ cs)
      ≡ served (at_start (held (c ∷ cs) st env))
unfolding read_client command_loop store_piece on_crlf
read_client-piece fuel c cs st env h =
    rw (strcrlf-none (c ∷ cs) h)
      (ap (λ n. served (at_start (parts ((c ∷ cs) ∷ []) n st env))) (omega arith))

pub NoReturn-append : (a b : Bytes) → NoReturn a → NoReturn b → NoReturn (a ++ b)
NoReturn-append [] b h k = k
NoReturn-append (c ∷ cs) b h k = (h.0, NoReturn-append cs b h.1 k)

-- When a session keeps nothing, memory lasts, and a command without carriage returns arrives in
-- two reads, neither piece of it empty but perhaps the second, and the two bytes of its end
-- arrive whole and last in the second read, the first read keeps its piece, and the second one
-- does what a single read of the whole command would have done.
pub read_client-split :
    (fuel : ℕ) (a b : Bytes) (st : SmtpState) (env : Envelope)
    → a ≢ []
    → NoReturn a
    → NoReturn b
    → (read_client (suc fuel) true (parts [] 0 st env) a ≡ served (at_start (held a st env)))
      × (read_client (suc fuel) true (held a st env) (b ++ crlf [])
          ≡ read_client (suc fuel) true (parts [] 0 st env) (a ++ (b ++ crlf [])))
unfolding read_client
read_client-split fuel [] b st env n h k = absurd (n refl)
read_client-split fuel (c ∷ cs) b st env n h k = (read_client-piece fuel c cs st env h, whole)
  where
    a : Bytes
    a = c ∷ cs

    next : Progress → Served
    next q = command_loop fuel true q []

    whole :
        read_client (suc fuel) true (held a st env) (b ++ crlf [])
        ≡ read_client (suc fuel) true (parts [] 0 st env) (a ++ (b ++ crlf []))
    whole =
        command_loop-line fuel true (at_start (held a st env)) b [] k
        ∙ ap (λ o. after_command o next) (one_command-held a b st env)
        ∙ sym (
            command_loop-line fuel true (at_start (parts [] 0 st env)) (a ++ b) []
              (NoReturn-append a b h k))
        ∙ ap (read_client (suc fuel) true (parts [] 0 st env)) (append_assoc a b (crlf []))

-- A carriage return with nothing behind it ends no line.
crlf_loop-return : (a : Bytes) (i : ℕ) → NoReturn a → crlf_loop (a ++ b'\r' ∷ []) i false ≡ none
unfolding crlf_loop
crlf_loop-return [] i h = refl
crlf_loop-return (c ∷ cs) i (n, h) =
    crlf_loop-skip c (cs ++ b'\r' ∷ []) i n ∙ crlf_loop-return cs (i + 1) h

-- A read without a line end is kept behind what is kept already.
read_client-kept :
    (fuel : ℕ) (s : Session) (c : ℕ) (cs : Bytes)
    → strcrlf (c ∷ cs) ≡ none
    → read_client (suc fuel) true s (c ∷ cs)
      ≡ served (
          at_start (record s {
            buffer = add_piece s.buffer (c ∷ cs);
            buffer_size = s.buffer_size + length (c ∷ cs);
          }))
unfolding read_client command_loop store_piece on_crlf
read_client-kept fuel s c cs e = rw e refl

-- When a session keeps nothing, memory lasts, and a command without carriage returns arrives in
-- a read that ends between the two bytes of its line end, the read of the "\n" alone does not
-- complete it: both pieces are kept, no command is processed, and nothing is sent.
pub read_client-return :
    (fuel : ℕ) (a : Bytes) (st : SmtpState) (env : Envelope)
    → NoReturn a
    → (read_client (suc fuel) true (parts [] 0 st env) (a ++ b'\r' ∷ [])
        ≡ served (at_start (held (a ++ b'\r' ∷ []) st env)))
      × (read_client (suc fuel) true (held (a ++ b'\r' ∷ []) st env) (b'\n' ∷ [])
          ≡ served (
              at_start (
                parts
                  ((a ++ b'\r' ∷ []) ∷ (b'\n' ∷ []) ∷ [])
                  (length (a ++ b'\r' ∷ []) + 1)
                  st
                  env)))
unfolding strcrlf crlf_loop
read_client-return fuel [] st env h = (
  read_client-kept fuel (parts [] 0 st env) b'\r' [] refl,
  read_client-kept fuel (held (b'\r' ∷ []) st env) b'\n' [] refl,
)
read_client-return fuel (c ∷ cs) st env h = (
  read_client-kept fuel (parts [] 0 st env) c (cs ++ b'\r' ∷ []) (crlf_loop-return (c ∷ cs) 0 h)
      ∙ ap (λ n. served (at_start (parts ((c ∷ (cs ++ b'\r' ∷ [])) ∷ []) n st env))) (omega arith),
  read_client-kept fuel (held (c ∷ (cs ++ b'\r' ∷ [])) st env) b'\n' [] refl,
)
