-- ===== src/Exchange/Mails.antt =====
-- A mail from the client of this repository to its server, from the greeting on.
use iu7_pvs_cp.Base.{
  NoZero-until_zero, until_zero, ℕ, suc, [], some, ◌≡◌, refl, ap, ◌∙◌, arith, codes, FdSet,
}
use iu7_pvs_cp.Smtp.Session.{initial}
use iu7_pvs_cp.Smtp.Commands.Invariant.{parts}
use iu7_pvs_cp.Client.Fsm.{init, finish}
use iu7_pvs_cp.Client.Connection.{Conn}
use iu7_pvs_cp.Exchange.{ClientTurn, client_turn, Both, exchange_once, exchange}
use iu7_pvs_cp.Exchange.ClientTurns.{IsIdle, client_turn-finish}
use iu7_pvs_cp.Exchange.Commands.{no_return_sound, IsPlain, nothing, addressed}
use iu7_pvs_cp.Exchange.Stages.{
  reply_IsGood, Stage-ehlo, Stage-mail, Stage-rcpt, Stage-data, Stage-text, Stage-quit,
}

exchange-step :
    (n : ℕ) (b : Both) {b' : Both} → exchange_once b ≡ some b' → exchange (suc n) b ≡ exchange n b'
unfolding exchange
exchange-step n b e = rw (e, exchange) refl

-- The greeting of the server is there.
abbrev pub greeted : Conn → FdSet → Both
greeted c set = record {
  conn = c;
  write_fs = set;
  session = parts [] 0 initial nothing;
  reply = codes "220\r\n";
}

-- The client of this repository against its server, from the greeting on, while memory lasts and
-- each side reads at once what the other has sent: when nothing waits, the mail has text and
-- counts its lines, both addresses are mailboxes, the text has no carriage return, is not "."
-- and fits into a read of the server, and the memory of the client has a zero byte behind the
-- text that HANDLE_DATA puts together and never a digit behind the three of parse_return_code,
-- after four turns the server has the sender and the receiver and waits for the text; after two
-- more its session is empty again, the text with it; and the client, with nothing more to send,
-- is in FINISH.
pub exchange-mail :
    (c : Conn) (set : FdSet)
    → IsIdle c init c
    → IsPlain c
    → (four : Both) × (six : Both) × (last : ClientTurn) × (exchange 4 (greeted c set) ≡ some four)
      × (four.session ≡ addressed c)
      × (exchange 2 four ≡ some six)
      × (six.session ≡ parts [] 0 initial nothing)
      × (client_turn six.conn six.write_fs six.reply ≡ some last)
      × (last.bytes ≡ [])
      × (last.conn.state ≡ finish)
unfolding exchange until_zero
exchange-mail c set i p =
    let e1 = Stage-ehlo c (greeted c set) p (record { client = i; server = refl; answer = refl }) in
    let e2 = Stage-mail c e1.0 p e1.2 in
    let e3 = Stage-rcpt c e2.0 p e2.2 in
    let e4 = Stage-data c e3.0 p e3.2 in
    let e5 = Stage-text c e4.0 p e4.2 in
    let e6 = Stage-quit c e5.0 p e5.2 in
    let last =
      client_turn-finish c e6.0.conn e6.0.write_fs (codes "221 OK") e6.2.client
        (no_return_sound (codes "221 OK") refl) (NoZero-until_zero (codes "221 OK") refl)
        (reply_IsGood c p 2 2 1 b' ' (codes "OK\r\n") (omega arith) (omega arith) (omega arith)
          (λ e. omega arith) refl) in
    (
      e4.0,
      e6.0,
      last.0,
      exchange-step 3 (greeted c set) e1.1
          ∙ exchange-step 2 e1.0 e2.1
          ∙ exchange-step 1 e2.0 e3.1
          ∙ exchange-step 0 e3.0 e4.1,
      e4.2.server,
      exchange-step 1 e4.0 e5.1 ∙ exchange-step 0 e5.0 e6.1,
      e6.2.server,
      ap (client_turn e6.0.conn e6.0.write_fs) e6.2.answer ∙ last.1,
      last.2,
      last.3,
    )
