-- ===== src/Client/Handlers/Dialogue.antt =====
-- The dialogue that the state machine of client/src/client-fsm.c has with a server.
use iu7_pvs_cp.Base.{
  ℕ, ◌+◌, ◌<◌, zero, suc, List, [], ◌∷◌, ◌++◌, ◌≡◌, refl, ap, ◌∙◌, Bytes, length, append_assoc,
}
use iu7_pvs_cp.Client.Fsm.{
  FsmState, init, initialized, s_ehlo, s_mf, s_rt, s_data, s_quit, finish, FsmEvent, ev_ok,
  tr_connect, tr_data, tr_ehlo, tr_mf, tr_quit, tr_rt,
}
use iu7_pvs_cp.Client.Connection.{Conn, FdSet, fd_set, IsValid, pending}
use iu7_pvs_cp.Client.Handlers.{Handled, StepResult, exited, fault, stepped, client_fsm_step}
use iu7_pvs_cp.Client.Handlers.Sending.{
  command, sent, sent-IsValid, pending-sent, handle_connect-sent, handle_ehlo-sent, handle_mf-sent,
  handle_rt-sent, handle_quit-sent, handle_data-sent,
}

-- The mail has text, its length is that of the array, and the byte behind the memory of the text in
-- HANDLE_DATA is zero.
pub record HasText (c : Conn) : Type 0 where
  pub counted : c.mail.text_len ≡ length c.mail.mail_text
  pub some_text : zero < c.mail.text_len
  pub ended : c.system.behind_text ≡ []

-- The events of one connection in order; each step starts in the state of the connection.
unfoldable pub run_events : List FsmEvent → Conn → FdSet → StepResult
run_events [] c set = stepped (record { conn = c; write_fs = set; returned = c.state })
run_events (ev ∷ evs) c set = elim (client_fsm_step c.state ev c set) [
  | exited ↦ exited
  | fault ↦ fault
  | stepped h ↦ run_events evs h.conn h.write_fs
]

run_events-step :
    (ev : FsmEvent) (evs : List FsmEvent) (c : Conn) (set : FdSet) {h : Handled}
    → client_fsm_step c.state ev c set ≡ stepped h
    → run_events (ev ∷ evs) c set ≡ run_events evs h.conn h.write_fs
unfolding run_events
run_events-step ev evs c set e = rw (e, run_events) refl

-- What the client has sent when the server has accepted everything.
pub dialogue : Conn → Bytes
dialogue c =
    command tr_connect c
    ++ (command tr_ehlo c
        ++ (command tr_mf c ++ (command tr_rt c ++ (command tr_data c ++ command tr_quit c))))

-- Seven positive replies take a fresh connection from INIT to FINISH.
abbrev pub seven_ok : List FsmEvent
seven_ok = ev_ok ∷ ev_ok ∷ ev_ok ∷ ev_ok ∷ ev_ok ∷ ev_ok ∷ ev_ok ∷ []

-- One positive reply in each state of the dialogue.
module _ (c : Conn) (set : FdSet) where
  abbrev pub ok_from : FsmState → StepResult
  ok_from st = client_fsm_step st ev_ok c set

  pub ok_init : ok_from init ≡ stepped (sent initialized c set (command tr_connect c))
  unfolding client_fsm_step
  ok_init = ap stepped (handle_connect-sent initialized c set)

  pub ok_initialized : ok_from initialized ≡ stepped (sent s_ehlo c set (command tr_ehlo c))
  unfolding client_fsm_step
  ok_initialized = ap stepped (handle_ehlo-sent s_ehlo c set)

  pub ok_ehlo : ok_from s_ehlo ≡ stepped (sent s_mf c set (command tr_mf c))
  unfolding client_fsm_step
  ok_ehlo = ap stepped (handle_mf-sent s_mf c set)

  pub ok_mf : ok_from s_mf ≡ stepped (sent s_rt c set (command tr_rt c))
  unfolding client_fsm_step
  ok_mf = ap stepped (handle_rt-sent s_rt c set)

  pub ok_rt : HasText c → ok_from s_rt ≡ stepped (sent s_data c set (command tr_data c))
  unfolding client_fsm_step
  ok_rt t = rw (handle_data-sent s_data c set t.counted t.some_text t.ended, client_fsm_step) refl

  pub ok_data : ok_from s_data ≡ stepped (sent s_quit c set (command tr_quit c))
  unfolding client_fsm_step
  ok_data = ap stepped (handle_quit-sent s_quit c set)

pub ok_quit :
    (c : Conn) (set : FdSet)
    → c.state ≡ s_quit
    → run_events (ev_ok ∷ []) c set
      ≡ stepped (record { conn = record c { state = finish }; write_fs = set; returned = finish })
unfolding run_events client_fsm_step
ok_quit c set e = rw e refl

abbrev at : FsmState → Bytes → Conn → Conn
at st bytes c = record c {
  state = st;
  send_buf = pending c ++ bytes;
  to_send = c.to_send + length bytes;
}

abbrev watched : ℕ → ℕ → FdSet → FdSet
watched zero socket set = set
watched (suc n) socket set = fd_set socket (watched n socket set)

-- On a valid connection in state INIT whose mail has text and counts its lines, when the byte
-- behind the memory of the text in HANDLE_DATA, which has no terminator, is zero, seven positive
-- replies queue the whole dialogue, in order, behind what waits already, and end in FINISH on a
-- valid connection.
pub run_events-seven_ok :
    (c : Conn) (set : FdSet)
    → c.state ≡ init
    → IsValid c
    → HasText c
    → (h : Handled) × (run_events seven_ok c set ≡ stepped h)
      × (h.conn.state ≡ finish)
      × (pending h.conn ≡ pending c ++ dialogue c)
      × IsValid h.conn
unfolding sent command dialogue
run_events-seven_ok c set e v t =
    let c1 = at initialized (command tr_connect c) c in
    let c2 = at s_ehlo (command tr_ehlo c) c1 in
    let c3 = at s_mf (command tr_mf c) c2 in
    let c4 = at s_rt (command tr_rt c) c3 in
    let c5 = at s_data (command tr_data c) c4 in
    let c6 = at s_quit (command tr_quit c) c5 in
    let fds = λ (n : ℕ). watched n c.socket set in
    let t' : HasText c4 = record {
      counted = t.counted;
      some_text = t.some_text;
      ended = t.ended;
    } in
    let v1 : IsValid c1 = sent-IsValid initialized c set (command tr_connect c) v in
    let v2 : IsValid c2 = sent-IsValid s_ehlo c1 set (command tr_ehlo c) v1 in
    let v3 : IsValid c3 = sent-IsValid s_mf c2 set (command tr_mf c) v2 in
    let v4 : IsValid c4 = sent-IsValid s_rt c3 set (command tr_rt c) v3 in
    let v5 : IsValid c5 = sent-IsValid s_data c4 set (command tr_data c) v4 in
    let v6 : IsValid c6 = sent-IsValid s_quit c5 set (command tr_quit c) v5 in
    (
      record { conn = record c6 { state = finish }; write_fs = fds 6; returned = finish },
      run_events-step ev_ok _ c set (ap (λ st. client_fsm_step st ev_ok c set) e ∙ ok_init c set)
          ∙ run_events-step ev_ok _ c1 _ (ok_initialized c1 _)
          ∙ run_events-step ev_ok _ c2 _ (ok_ehlo c2 _)
          ∙ run_events-step ev_ok _ c3 _ (ok_mf c3 _)
          ∙ run_events-step ev_ok _ c4 _ (ok_rt c4 _ t')
          ∙ run_events-step ev_ok _ c5 _ (ok_data c5 _)
          ∙ ok_quit c6 _ refl,
      refl,
      pending-sent s_quit c5 set (command tr_quit c) v5
          ∙ rw (pending-sent s_data c4 set (command tr_data c) v4) (
              rw (pending-sent s_rt c3 set (command tr_rt c) v3) (
                rw (pending-sent s_mf c2 set (command tr_mf c) v2) (
                  rw (pending-sent s_ehlo c1 set (command tr_ehlo c) v1) (
                    rw (pending-sent initialized c set (command tr_connect c) v)
                      (simp append_assoc))))),
      record { sending = v6.sending; receiving = v6.receiving },
    )
