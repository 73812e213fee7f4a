-- ===== src/Exchange/ClientTurns.antt =====
-- A turn of the client of this repository on a positive reply.
use iu7_pvs_cp.Base.{
  NoZero, ◌+◌, ◌≤◌, true, [], ◌∷◌, ◌++◌, some, inl, ◌≡◌, refl, ap, sym, ◌∙◌, subst, Bytes, codes,
  length, take-length, arith, FdSet,
}
use iu7_pvs_cp.StringUtils.Crlf.{NoReturn}
use iu7_pvs_cp.Client.Fsm.{
  FsmState, FsmTrans, tr_connect, tr_data, tr_ehlo, tr_error, tr_finish, tr_invalid, tr_mf, tr_quit,
  tr_rt, ev_ok, s_quit, finish,
}
use iu7_pvs_cp.Client.Connection.{Conn}
use iu7_pvs_cp.Client.Handlers.{stepped, client_fsm_step}
use iu7_pvs_cp.Client.Handlers.Sending.{sent, join, command}
use iu7_pvs_cp.Client.Messages.{good}
use iu7_pvs_cp.Client.Io.{after_step, judged, send_size, offered, conn_write}
use iu7_pvs_cp.Client.Io.Replies.{Gives, gives_ok, used, process_conn_read-reply}
use iu7_pvs_cp.Exchange.{ClientTurn, on_read, client_turn}

-- A connection of the mail of `c0` that has sent and used everything.
pub record IsIdle (c0 : Conn) (st : FsmState) (c : Conn) : Type 0 where
  pub in_state : c.state ≡ st
  pub all_sent : c.to_send ≡ 0
  pub all_used : c.to_receive ≡ 0
  pub same_mail : c.mail ≡ c0.mail
  pub same_sender : c.sender ≡ c0.sender
  pub same_receiver : c.to ≡ c0.to
  pub same_system : c.system ≡ c0.system

-- The command of a transition depends on the mail alone.
command-IsIdle :
    (t : FsmTrans) {st : FsmState} (c0 c : Conn) → IsIdle c0 st c → command t c ≡ command t c0
unfolding command
command-IsIdle tr_connect c0 c i = refl
command-IsIdle tr_data c0 c i = ap (λ m. join m.mail_text ++ codes "\r\n.\r\n") i.same_mail
command-IsIdle tr_ehlo c0 c i = ap (λ x. codes "MAIL FROM:<" ++ (x ++ codes ">\r\n")) i.same_sender
command-IsIdle tr_error c0 c i = refl
command-IsIdle tr_finish c0 c i = refl
command-IsIdle tr_invalid c0 c i = refl
command-IsIdle tr_mf c0 c i = ap (λ x. codes "RCPT TO:<" ++ (x ++ codes ">\r\n")) i.same_receiver
command-IsIdle tr_quit c0 c i = refl
command-IsIdle tr_rt c0 c i = refl

send_size-sent :
    (nx : FsmState) (d : Conn) (set : FdSet) (b : Bytes)
    → d.to_send ≡ 0
    → length b ≤ 1000000
    → send_size (sent nx d set b).conn ≡ length b
unfolding send_size sent
send_size-sent nx d set b e l = ground arith

-- All of a command is sent at once.
sent_at_once :
    (nx : FsmState) (d : Conn) (set : FdSet) (b : Bytes)
    → d.to_send ≡ 0
    → length b ≤ 1000000
    → offered (sent nx d set b).conn ≡ b
unfolding offered sent
sent_at_once nx d set b e l = rw (send_size-sent nx d set b e l) (rw e (take-length b))

-- A positive reply of one line: the client sends the command of its state and moves on.
pub client_turn-IsIdle :
    (c0 c : Conn) (set : FdSet) (line : Bytes) {st : FsmState} (nx : FsmState) (t : FsmTrans)
    → IsIdle c0 st c
    → NoReturn line
    → NoZero line
    → ((d : Conn) → d.system ≡ c0.system → judged d (line ++ (b'\r' ∷ b'\n' ∷ [])) ≡ good)
    → ((d : Conn)
        → IsIdle c0 st d
        → client_fsm_step st ev_ok d set ≡ stepped (sent nx d set (command t d)))
    → length (command t c0) ≤ 1000000
    → (r : ClientTurn) × (client_turn c set (line ++ (b'\r' ∷ b'\n' ∷ [])) ≡ some r)
      × (r.bytes ≡ command t c0)
      × IsIdle c0 nx r.conn
unfolding client_turn conn_write sent
client_turn-IsIdle c0 c set line {st} nx t i n z g step l =
    let d = used c line [] in
    let idle : IsIdle c0 st d = record {
      in_state = i.in_state;
      all_sent = i.all_sent;
      all_used = refl;
      same_mail = i.same_mail;
      same_sender = i.same_sender;
      same_receiver = i.same_receiver;
      same_system = i.same_system;
    } in
    let short : length (command t d) ≤ 1000000 =
      subst (λ b. length b ≤ 1000000) (sym (command-IsIdle t c0 d idle)) l in
    let read =
      process_conn_read-reply (c.to_receive + length (line ++ (b'\r' ∷ b'\n' ∷ []))) c set line []
        ev_ok i.all_used n z (inl (omega arith))
        (subst (λ v. Gives v ev_ok) (sym (g d i.same_system)) gives_ok) in
    let stepped_on = ap (λ x. client_fsm_step x ev_ok d set) i.in_state ∙ step d idle in
    (
      record {
        conn =
            conn_write (sent nx d set (command t d)).conn
              (send_size (sent nx d set (command t d)).conn);
        write_fs = (sent nx d set (command t d)).write_fs;
        bytes = offered (sent nx d set (command t d)).conn;
      },
      ap on_read (read.0 ∙ ap (λ r. after_step r true) stepped_on),
      sent_at_once nx d set (command t d) i.all_sent short ∙ command-IsIdle t c0 d idle,
      record {
        in_state = refl;
        all_sent =
            let a = i.all_sent in
            let z = send_size-sent nx d set (command t d) i.all_sent short in omega arith;
        all_used = refl;
        same_mail = i.same_mail;
        same_sender = i.same_sender;
        same_receiver = i.same_receiver;
        same_system = i.same_system;
      },
    )

-- The positive reply to QUIT: nothing is sent any more.
pub client_turn-finish :
    (c0 c : Conn) (set : FdSet) (line : Bytes)
    → IsIdle c0 s_quit c
    → NoReturn line
    → NoZero line
    → ((d : Conn) → d.system ≡ c0.system → judged d (line ++ (b'\r' ∷ b'\n' ∷ [])) ≡ good)
    → (r : ClientTurn) × (client_turn c set (line ++ (b'\r' ∷ b'\n' ∷ [])) ≡ some r)
      × (r.bytes ≡ [])
      × (r.conn.state ≡ finish)
unfolding client_turn conn_write offered send_size client_fsm_step
client_turn-finish c0 c set line i n z g =
    let d = used c line [] in
    let e = record d { state = finish } in
    let read =
      process_conn_read-reply (c.to_receive + length (line ++ (b'\r' ∷ b'\n' ∷ []))) c set line []
        ev_ok i.all_used n z (inl (omega arith))
        (subst (λ v. Gives v ev_ok) (sym (g d i.same_system)) gives_ok) in
    (
      record { conn = conn_write e (send_size e); write_fs = set; bytes = offered e },
      ap on_read (read.0 ∙ ap (λ x. after_step (client_fsm_step x ev_ok d set) true) i.in_state),
      rw (i.all_sent, send_size) refl,
      refl,
    )
