-- ===== src/Client/Io.antt =====
-- client/src/client.c: one read and one write event of a connection.
pub mod Reading
pub mod Writing
pub mod Replies
pub mod Targets
use iu7_pvs_cp.Base.{
  ℕ, zero, suc, ◌+◌, ◌-◌, Bool, true, false, ◌&&◌, ◌||◌, List, [], ◌∷◌, ◌++◌, Option, none, some,
  Bytes, length, take, drop, ◌==◌, ltb, if◌then◌else◌,
}
use iu7_pvs_cp.SharedStrings.{Grown, concat_dynamic_strings}
use iu7_pvs_cp.Client.Fsm.{FsmState, FsmEvent, ev_ok, ev_bad, ev_connection_lost, ev_error}
use iu7_pvs_cp.Client.Connection.{Conn, FdSet}
use iu7_pvs_cp.Client.Handlers.{Handled, StepResult, exited, fault, stepped, client_fsm_step}
use iu7_pvs_cp.Client.Messages.{
  Part, copy_down, try_parse_message_part, Verdict, bad, more, good, process_message,
}

-- What `recv` returns: -1, or the bytes that arrived, at most the size of the buffer. No bytes are
-- the end of the stream.
pub data Recv : Type 0 where
  recv_failed : Recv
  recv_bytes : Bytes → Recv

-- `conn_read` with a positive result.
unfoldable pub store_received : Conn → Bytes → Conn
unfolding concat_dynamic_strings
store_received connection bytes =
    let grown =
      concat_dynamic_strings connection.receive_buf bytes connection.to_receive (length bytes) in
    record connection { receive_buf = grown.str1; to_receive = grown.len }

-- The connection, the write set and whether 0 is returned.
pub record ReadDone : Type 0 where
  pub conn : Conn
  pub write_fs : FdSet
  pub success : Bool

pub data ReadResult : Type 0 where
  read_exited : ReadResult
  read_fault : ReadResult
  out_of_fuel : ReadResult
  read_done : ReadDone → ReadResult

-- The state machine makes a step, and the function returns.
abbrev pub after_step : StepResult → Bool → ReadResult
after_step exited success = read_exited
after_step fault success = read_fault
after_step (stepped h) success =
    read_done (record { conn = h.conn; write_fs = h.write_fs; success = success })

step_on : FsmEvent → Conn → FdSet → Bool → ReadResult
step_on ev connection write_fs success =
    after_step (client_fsm_step connection.state ev connection write_fs) success

-- The connection behind `try_parse_message_part`; `received` grows by `len` further on.
unfoldable pub after_part : Conn → Part → Conn
after_part connection part = record connection { receive_buf = part.buf; to_receive = part.new_len }

-- `connection->to_receive == 0 && (message == NULL || strlen(message) == 0)`
abbrev nothing_left : ℕ → Option Bytes → Bool
nothing_left to_receive none = to_receive == 0
nothing_left to_receive (some message) = to_receive == 0 && length message == 0

on_verdict : Verdict → Conn → FdSet → ReadResult → ReadResult
unfolding step_on
on_verdict bad connection write_fs again = step_on ev_bad connection write_fs true
on_verdict more connection write_fs again = again
on_verdict good connection write_fs again = step_on ev_ok connection write_fs true

-- `process_message` of a message in memory, which has no terminator: the string goes on in what lies
-- behind it.
unfoldable pub judged : Conn → Bytes → Verdict
unfolding process_message
judged connection message =
    process_message (connection.system.behind_num connection.received)
      (message ++ connection.system.behind_message connection.received)

-- `process_message` of NULL reads through it.
on_message : Option Bytes → Conn → FdSet → ReadResult → ReadResult
unfolding on_verdict judged
on_message none connection write_fs again = read_fault
on_message (some message) connection write_fs again =
    on_verdict (judged connection message) connection write_fs again

-- One round of the loop `while (!sign_msg)` behind `try_parse_message_part`.
unfoldable pub on_part : Option Part → Conn → FdSet → (Conn → ReadResult) → ReadResult
unfolding on_message after_part
on_part none connection write_fs again = read_fault
on_part (some part) connection write_fs again =
    let c = after_part connection part in
    let d = record c { received = c.received + part.len } in
    if nothing_left c.to_receive part.message
    then read_done (record { conn = c; write_fs = write_fs; success = true })
    else on_message part.message d write_fs (again d)

-- The call of `try_parse_message_part`.
abbrev pub next_part : Conn → Option Part
next_part connection =
    try_parse_message_part connection.system (connection.system.behind_buffer connection.received)
      connection.receive_buf connection.to_receive connection.to_receive

unfoldable pub read_loop : ℕ → Conn → FdSet → ReadResult
unfolding on_part
read_loop zero connection write_fs = out_of_fuel
read_loop (suc fuel) connection write_fs =
    on_part (next_part connection) connection write_fs (λ c. read_loop fuel c write_fs)

unfoldable pub process_conn_read : ℕ → Recv → Conn → FdSet → ReadResult
unfolding step_on store_received read_loop
process_conn_read fuel recv_failed connection write_fs = step_on ev_error connection write_fs false
process_conn_read fuel (recv_bytes []) connection write_fs =
    step_on ev_connection_lost connection write_fs true
process_conn_read fuel (recv_bytes (b ∷ bs)) connection write_fs =
    read_loop fuel (store_received connection (b ∷ bs)) write_fs

-- BUFSIZE
abbrev pub bufsize : ℕ
bufsize = 1000000

-- send_size
unfoldable pub send_size : Conn → ℕ
send_size connection = if ltb connection.to_send bufsize then connection.to_send else bufsize

-- The bytes that `conn_write` hands to `send`.
unfoldable pub offered : Conn → Bytes
unfolding send_size
offered connection = take (send_size connection) connection.send_buf

-- `conn_write` when `send` took `len` bytes.
unfoldable pub conn_write : Conn → ℕ → Conn
unfolding copy_down
conn_write connection len = record connection {
  send_buf = copy_down connection.system connection.send_buf len (connection.to_send - len);
  sended = connection.sended + len;
  to_send = connection.to_send - len;
}

-- What `send` returns: -1, or how many bytes it took.
pub data Send : Type 0 where
  send_failed : Send
  send_taken : ℕ → Send

unfoldable pub process_conn_write : Send → Conn → FdSet → ReadResult
unfolding step_on conn_write
process_conn_write send_failed connection write_fs = step_on ev_error connection write_fs false
process_conn_write (send_taken len) connection write_fs =
    read_done (record { conn = conn_write connection len; write_fs = write_fs; success = true })
