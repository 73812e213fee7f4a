-- ===== src/Client/Handlers.antt =====
-- client/src/client_fsm_handlers.c and `client_fsm_step` of client/src/client-fsm.c.
pub mod Sending
pub mod Dialogue
pub mod Progress
pub mod Targets
use iu7_pvs_cp.Base.{
  ℕ, zero, suc, Bool, true, false, ◌==◌, List, [], ◌∷◌, ◌++◌, Option, none, some, Bytes, codes,
  length, if◌then◌else◌,
}
use iu7_pvs_cp.SharedStrings.{Grown, concat_dynamic_strings}
use iu7_pvs_cp.Client.Fsm.{
  FsmState, init, s_error, FsmEvent, FsmTrans, tr_connect, tr_data, tr_ehlo, tr_error, tr_finish,
  tr_invalid, tr_mf, tr_quit, tr_rt, FsmTransition, select_transition,
}
use iu7_pvs_cp.Client.Connection.{Mail, Conn, FdSet, fd_set}

-- What a handler leaves: the connection, the write set and the state that it returns.
pub record Handled : Type 0 where
  pub conn : Conn
  pub write_fs : FdSet
  pub returned : FsmState

abbrev pub domain : Bytes
domain = codes "alfabank.com"

-- concat_dynamic_strings(&comm, text, new_len, len)
abbrev grow : Grown → Bytes → ℕ → Grown
grow comm text len = concat_dynamic_strings comm.str1 text comm.len len

abbrev pub nothing : Grown
nothing = record { str1 = []; len = 0 }

-- The end that the sending handlers share: `comm` goes behind the send buffer.
unfoldable pub enqueue : FsmState → Conn → FdSet → Grown → Handled
unfolding concat_dynamic_strings
enqueue next_state connect set comm =
    let sent = concat_dynamic_strings connect.send_buf comm.str1 connect.to_send comm.len in
    record {
      conn = record connect { state = next_state; send_buf = sent.str1; to_send = sent.len };
      write_fs = fd_set connect.socket set;
      returned = next_state;
    }

unfoldable pub handle_connect : FsmState → Conn → FdSet → Handled
unfolding enqueue concat_dynamic_strings
handle_connect next_state connect set =
    enqueue next_state connect set
      (grow (grow (grow nothing (codes "EHLO ") 5) domain (length domain)) (codes "\r\n") 2)

unfoldable pub handle_ehlo : FsmState → Conn → FdSet → Handled
unfolding enqueue concat_dynamic_strings
handle_ehlo next_state connect set = enqueue next_state connect set (
    grow (grow (grow nothing (codes "MAIL FROM:<") 11) connect.sender (length connect.sender))
      (codes ">\r\n") 3)

unfoldable pub handle_quit : FsmState → Conn → FdSet → Handled
unfolding enqueue concat_dynamic_strings
handle_quit next_state connect set =
    enqueue next_state connect set (grow nothing (codes "QUIT\r\n") 6)

unfoldable pub handle_finish : FsmState → Conn → FdSet → Handled
handle_finish next_state connect set = record {
  conn = record connect { state = next_state };
  write_fs = set;
  returned = next_state;
}

unfoldable pub handle_error : FsmState → Conn → FdSet → Handled
handle_error next_state connect set = record {
  conn = record connect { state = next_state };
  write_fs = set;
  returned = next_state;
}

unfoldable pub handle_mf : FsmState → Conn → FdSet → Handled
unfolding enqueue concat_dynamic_strings
handle_mf next_state connect set = enqueue next_state connect set (
    grow (grow (grow nothing (codes "RCPT TO:<") 9) connect.to (length connect.to)) (codes ">\r\n")
      3)

unfoldable pub handle_rt : FsmState → Conn → FdSet → Handled
unfolding enqueue concat_dynamic_strings
handle_rt next_state connect set =
    enqueue next_state connect set (grow (grow nothing (codes "DATA") 4) (codes "\r\n") 2)

-- The loop of `concat_mail_text` over the first `text_len` strings; `none` when the array is
-- shorter than `text_len`.
unfoldable pub concat_mail_loop : List Bytes → ℕ → Grown → Option Grown
unfolding concat_dynamic_strings
concat_mail_loop text zero acc = some acc
concat_mail_loop [] (suc n) acc = none
concat_mail_loop (line ∷ lines) (suc n) acc = concat_mail_loop lines n (grow acc line (length line))

-- A fault, NULL, or a text.
pub data MailText : Type 0 where
  out_of_range : MailText
  null : MailText
  text : Bytes → MailText

-- NULL when there is nothing to concatenate: `text` is still what it was set to.
unfoldable pub concat_mail_text : List Bytes → ℕ → MailText
unfolding concat_mail_loop
concat_mail_text mail_text zero = null
concat_mail_text mail_text (suc n) = elim (concat_mail_loop mail_text (suc n) nothing) [
  | none ↦ out_of_range
  | some grown ↦ text grown.str1
]

-- `strlen(text)` also counts what lies behind the memory of `text`, which has no terminator.
unfoldable pub handle_data : FsmState → Conn → FdSet → Option Handled
unfolding enqueue concat_dynamic_strings handle_error
handle_data next_state connect set =
    elim (concat_mail_text connect.mail.mail_text connect.mail.text_len) [
      | out_of_range ↦ none
      | null ↦ some (handle_error s_error (record connect { state = next_state }) set)
      | text t ↦
          let string = t ++ connect.system.behind_text in
          some (
            enqueue next_state connect set
              (grow (grow nothing string (length string)) (codes "\r\n.\r\n") 5))
    ]

-- `exited` is the call of exit() on an invalid transition.
pub data StepResult : Type 0 where
  exited : StepResult
  fault : StepResult
  stepped : Handled → StepResult

abbrev stepped_or_fault : Option Handled → StepResult
stepped_or_fault none = fault
stepped_or_fault (some h) = stepped h

-- The switch.
unfoldable pub run_transition : FsmTrans → FsmState → Conn → FdSet → StepResult
unfolding handle_connect handle_data handle_ehlo handle_error handle_finish handle_mf handle_quit
    handle_rt
run_transition tr_connect next connection set = stepped (handle_connect next connection set)
run_transition tr_data next connection set = stepped_or_fault (handle_data next connection set)
run_transition tr_ehlo next connection set = stepped (handle_ehlo next connection set)
run_transition tr_error next connection set = stepped (handle_error next connection set)
run_transition tr_finish next connection set = stepped (handle_finish next connection set)
run_transition tr_invalid next connection set = exited
run_transition tr_mf next connection set = stepped (handle_mf next connection set)
run_transition tr_quit next connection set = stepped (handle_quit next connection set)
run_transition tr_rt next connection set = stepped (handle_rt next connection set)

-- The return before the switch, and the switch.
abbrev pub on_selected : Option FsmTransition → Conn → FdSet → StepResult
on_selected none connection set =
    stepped (record { conn = connection; write_fs = set; returned = init })
on_selected (some t) connection set = run_transition t.transition t.next_state connection set

unfoldable pub client_fsm_step : FsmState → FsmEvent → Conn → FdSet → StepResult
unfolding select_transition run_transition
client_fsm_step st ev connection set = on_selected (select_transition st ev) connection set
