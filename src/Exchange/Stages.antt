-- ===== src/Exchange/Stages.antt =====
-- The turns of client and server of this repository, one after the other.
use iu7_pvs_cp.Base.{
  NoZero, NoZero-until_zero, until_zero, ℕ, ◌+◌, ◌≢◌, ◌==◌, ◌||◌, true, ◌<◌, ◌≤◌, [], ◌∷◌, ◌++◌,
  some, ◌≡◌, refl, ap, sym, subst, ◌∙◌, Bytes, codes, length, length-append, arith, FdSet,
}
use iu7_pvs_cp.StringUtils.Crlf.{NoReturn}
use iu7_pvs_cp.Smtp.Session.{initial, established, mail_rcpt, Envelope, Session}
use iu7_pvs_cp.Smtp.Commands.Invariant.{parts}
use iu7_pvs_cp.Client.Fsm.{
  FsmState, FsmTrans, ev_ok, init, initialized, s_ehlo, s_mf, s_rt, s_data, s_quit, tr_connect,
  tr_data, tr_ehlo, tr_mf, tr_quit, tr_rt,
}
use iu7_pvs_cp.Client.Connection.{Conn}
use iu7_pvs_cp.Client.Handlers.{stepped, client_fsm_step}
use iu7_pvs_cp.Client.Handlers.Sending.{join, sent, command}
use iu7_pvs_cp.Client.Handlers.Dialogue.{
  HasText, ok_init, ok_initialized, ok_ehlo, ok_mf, ok_rt, ok_data,
}
use iu7_pvs_cp.Client.Messages.{good}
use iu7_pvs_cp.Client.Messages.ReplyClass.{NoDigit, process_message_class}
use iu7_pvs_cp.Client.Io.{judged}
use iu7_pvs_cp.Exchange.{ClientTurn, client_turn, server_turn, Both, exchange_once}
use iu7_pvs_cp.Exchange.ClientTurns.{IsIdle, client_turn-IsIdle}
use iu7_pvs_cp.Exchange.Commands.{
  no_return_sound, IsPlain, nothing, addressed, server_turn-ehlo, server_turn-mail,
  server_turn-rcpt, server_turn-data, server_turn-message, server_turn-quit,
}

-- A turn of each side.
exchange_once-turns :
    (c : Conn) (set : FdSet) (s : Session) (reply bytes : Bytes) {r : ClientTurn}
    {q : Session × Bytes}
    → client_turn c set reply ≡ some r
    → r.bytes ≡ bytes
    → server_turn s bytes ≡ some q
    → exchange_once (record { conn = c; write_fs = set; session = s; reply = reply })
      ≡ some (record { conn = r.conn; write_fs = r.write_fs; session = q.0; reply = q.1 })
unfolding exchange_once
exchange_once-turns c set s reply bytes e f g =
    rw (e, exchange_once) (rw f (rw (g, exchange_once) refl))

-- One turn of each side: from `st` the client sends the command of `t`, and the server answers with
-- the next reply.
abbrev pub reply_of : Bytes → Bytes
reply_of line = line ++ (b'\r' ∷ b'\n' ∷ [])

-- The client with its mail in state `st`, and the server with its session and its reply.
pub record Stage (c0 : Conn) (st : FsmState) (s : Session) (line : Bytes) (b : Both) : Type 0 where
  pub client : IsIdle c0 st b.conn
  pub server : b.session ≡ s
  pub answer : b.reply ≡ reply_of line

turns :
    (c0 : Conn) (b : Both) {st : FsmState} (nx : FsmState) (t : FsmTrans) {s : Session}
    (s' : Session) {line : Bytes} (line' : Bytes)
    → Stage c0 st s line b
    → NoReturn line
    → NoZero line
    → ((d : Conn) → d.system ≡ c0.system → judged d (reply_of line) ≡ good)
    → ((d : Conn)
        → IsIdle c0 st d
        → client_fsm_step st ev_ok d b.write_fs ≡ stepped (sent nx d b.write_fs (command t d)))
    → length (command t c0) ≤ 1024
    → server_turn s (command t c0) ≡ some (s', reply_of line')
    → (b' : Both) × (exchange_once b ≡ some b') × Stage c0 nx s' line' b'
turns c0 b nx t s' line' h n z g step l e =
    let r = client_turn-IsIdle c0 b.conn b.write_fs _ nx t h.client n z g step (omega arith) in
    let read = ap (client_turn b.conn b.write_fs) h.answer ∙ r.1 in
    (
      record { conn = r.0.conn; write_fs = r.0.write_fs; session = s'; reply = reply_of line' },
      exchange_once-turns b.conn b.write_fs b.session b.reply (command t c0) read r.2
          (ap (λ x. server_turn x (command t c0)) h.server ∙ e),
      record { client = r.3; server = refl; answer = refl },
    )

-- A reply with three digits, the first of them a 2 or 3.
pub reply_IsGood :
    (c : Conn)
    → IsPlain c
    → (a b e sep : ℕ) (rest : Bytes) → a < 10
    → b < 10
    → e < 10
    → sep ≢ b'-'
    → (a == 2 || a == 3) ≡ true
    → (d : Conn) → d.system ≡ c.system
    → judged d ((a + b'0') ∷ (b + b'0') ∷ (e + b'0') ∷ sep ∷ rest) ≡ good
unfolding judged
reply_IsGood c p a b e sep rest la lb le n q d s =
    process_message_class (d.system.behind_num d.received) a b e sep
      (rest ++ d.system.behind_message d.received)
      (subst (λ s. NoDigit (s.behind_num d.received)) (sym s) (p.no_digit d.received)) la lb le n
    ∙ rw q refl

pub HasText-IsIdle : (c0 d : Conn) {st : FsmState} → IsIdle c0 st d → HasText c0 → HasText d
HasText-IsIdle c0 d i t = record {
  counted =
      ap (λ m. m.text_len) i.same_mail ∙ t.counted ∙ sym (ap (λ m. length m.mail_text) i.same_mail);
  ended = ap (λ s. s.behind_text) i.same_system ∙ t.ended;
  some_text = subst (λ n. 0 < n) (sym (ap (λ m. m.text_len) i.same_mail)) t.some_text;
}

-- The envelope behind MAIL, and behind RCPT.
abbrev pub from_only : Conn → Envelope
from_only c = record { recipients = []; lines = []; sender = some c.sender }

abbrev pub from_and_to : Conn → Envelope
from_and_to c = record { recipients = c.to ∷ []; lines = []; sender = some c.sender }

pub Stage-ehlo :
    (c : Conn) (b : Both)
    → IsPlain c
    → Stage c init (parts [] 0 initial nothing) (codes "220") b
    → (b' : Both) × (exchange_once b ≡ some b')
      × Stage c initialized (parts [] 0 established nothing) (codes "250") b'
unfolding command until_zero
Stage-ehlo c b p h =
    turns c b initialized tr_connect (parts [] 0 established nothing) (codes "250") h
      (no_return_sound (codes "220") refl) (NoZero-until_zero (codes "220") refl)
      (reply_IsGood c p 2 2 0 b'\r' (b'\n' ∷ []) (omega arith) (omega arith) (omega arith)
        (λ e. omega arith) refl)
      (λ d k. ok_init d b.write_fs) (omega arith) (server_turn-ehlo c)

pub Stage-mail :
    (c : Conn) (b : Both)
    → IsPlain c
    → Stage c initialized (parts [] 0 established nothing) (codes "250") b
    → (b' : Both) × (exchange_once b ≡ some b')
      × Stage c s_ehlo (parts [] 0 mail_rcpt (from_only c)) (codes "250 OK") b'
unfolding command until_zero
Stage-mail c b p h =
    turns c b s_ehlo tr_ehlo (parts [] 0 mail_rcpt (from_only c)) (codes "250 OK") h
      (no_return_sound (codes "250") refl) (NoZero-until_zero (codes "250") refl)
      (reply_IsGood c p 2 5 0 b'\r' (b'\n' ∷ []) (omega arith) (omega arith) (omega arith)
        (λ e. omega arith) refl)
      (λ d k. ok_initialized d b.write_fs)
      (let l = p.short_sender in omega (arith, length-append c.sender (codes ">\r\n")))
      (server_turn-mail c p.from_mailbox p.short_sender)

pub Stage-rcpt :
    (c : Conn) (b : Both)
    → IsPlain c
    → Stage c s_ehlo (parts [] 0 mail_rcpt (from_only c)) (codes "250 OK") b
    → (b' : Both) × (exchange_once b ≡ some b')
      × Stage c s_mf (parts [] 0 mail_rcpt (from_and_to c)) (codes "250") b'
unfolding command until_zero
Stage-rcpt c b p h =
    turns c b s_mf tr_mf (parts [] 0 mail_rcpt (from_and_to c)) (codes "250") h
      (no_return_sound (codes "250 OK") refl) (NoZero-until_zero (codes "250 OK") refl)
      (reply_IsGood c p 2 5 0 b' ' (codes "OK\r\n") (omega arith) (omega arith) (omega arith)
        (λ e. omega arith) refl)
      (λ d k. ok_ehlo d b.write_fs)
      (let l = p.short_receiver in omega (arith, length-append c.to (codes ">\r\n")))
      (server_turn-rcpt c p.to_mailbox p.short_receiver)

pub Stage-data :
    (c : Conn) (b : Both)
    → IsPlain c
    → Stage c s_mf (parts [] 0 mail_rcpt (from_and_to c)) (codes "250") b
    → (b' : Both) × (exchange_once b ≡ some b') × Stage c s_rt (addressed c) (codes "354") b'
unfolding command until_zero
Stage-data c b p h =
    turns c b s_rt tr_rt (addressed c) (codes "354") h (no_return_sound (codes "250") refl)
      (NoZero-until_zero (codes "250") refl)
      (reply_IsGood c p 2 5 0 b'\r' (b'\n' ∷ []) (omega arith) (omega arith) (omega arith)
        (λ e. omega arith) refl)
      (λ d k. ok_mf d b.write_fs) (omega arith) (server_turn-data c (from_and_to c))

pub Stage-text :
    (c : Conn) (b : Both)
    → IsPlain c
    → Stage c s_rt (addressed c) (codes "354") b
    → (b' : Both) × (exchange_once b ≡ some b')
      × Stage c s_data (parts [] 0 established nothing) (codes "250 OK") b'
unfolding command until_zero
Stage-text c b p h =
    turns c b s_data tr_data (parts [] 0 established nothing) (codes "250 OK") h
      (no_return_sound (codes "354") refl) (NoZero-until_zero (codes "354") refl)
      (reply_IsGood c p 3 5 4 b'\r' (b'\n' ∷ []) (omega arith) (omega arith) (omega arith)
        (λ e. omega arith) refl)
      (λ d k. ok_rt d b.write_fs (HasText-IsIdle c d k p.has_text))
      (let l = p.short_text in
        omega (arith, length-append (join c.mail.mail_text) (codes "\r\n.\r\n")))
      (server_turn-message c (from_and_to c) p)

pub Stage-quit :
    (c : Conn) (b : Both)
    → IsPlain c
    → Stage c s_data (parts [] 0 established nothing) (codes "250 OK") b
    → (b' : Both) × (exchange_once b ≡ some b')
      × Stage c s_quit (parts [] 0 initial nothing) (codes "221 OK") b'
unfolding command until_zero
Stage-quit c b p h =
    turns c b s_quit tr_quit (parts [] 0 initial nothing) (codes "221 OK") h
      (no_return_sound (codes "250 OK") refl) (NoZero-until_zero (codes "250 OK") refl)
      (reply_IsGood c p 2 5 0 b' ' (codes "OK\r\n") (omega arith) (omega arith) (omega arith)
        (λ e. omega arith) refl)
      (λ d k. ok_data d b.write_fs) (omega arith) (server_turn-quit c)
