-- ===== src/Client/Connection.antt =====
-- client/include/smtp_conn.h, client/src/smtp_conn.c and mail_t of client/include/parser.h.
use iu7_pvs_cp.Base.{ℕ, ◌≤◌, List, [], Option, none, some, Bytes, get_elem?, length, take}
use iu7_pvs_cp.Client.Fsm.{FsmState, init}
pub use iu7_pvs_cp.Base.{FdSet, fd_set}

-- mail_t
pub record Mail : Type 0 where
  pub mail_text : List Bytes
  pub sender : Bytes  -- `from`
  pub recievers : List Bytes
  pub hosts : List Bytes
  pub ports : List ℕ
  pub tos_count : ℕ
  pub text_len : ℕ

-- What the source leaves to the memory and to the C library. Bytes behind an array are those before
-- the first zero; those that change from reply to reply are given by the field `received`.
pub record System : Type 0 where
  pub behind_text : Bytes  -- behind the memory of `text` in HANDLE_DATA
  pub behind_buffer : ℕ → Bytes  -- behind `receive_buf` in try_parse_message_part
  pub behind_message : ℕ → Bytes  -- behind `message` in process_message
  pub behind_num : ℕ → Bytes  -- behind `num` in parse_return_code
  -- The i-th byte that `memcpy` of n bytes leaves when it copies from `len` bytes further up in the
  -- same buffer and the two regions overlap, which the C standard leaves undefined.
  pub overlapped : Bytes → ℕ → ℕ → ℕ → ℕ

-- conn_t; a buffer is the bytes of its allocation that were written.
pub record Conn : Type 0 where
  pub mail : Mail
  pub to : Bytes
  pub sender : Bytes  -- `from`
  pub host : Bytes
  pub port : ℕ
  pub state : FsmState
  pub socket : ℕ
  pub send_buf : Bytes
  pub receive_buf : Bytes
  pub sended : ℕ
  pub to_send : ℕ
  pub received : ℕ
  pub to_receive : ℕ
  pub system : System  -- no field of conn_t

-- What `malloc` left in the field `socket`, with the memory that the connection will meet.
pub record Malloced : Type 0 where
  pub left_socket : ℕ
  pub left_system : System

infixl 5 ◌>>=◌
abbrev ◌>>=◌ : {A B : Type 0} → Option A → (A → Option B) → Option B
none >>= f = none
some a >>= f = f a

-- `none` when `to_num` is out of the arrays. The field `socket` is not set.
unfoldable pub init_connection : Malloced → Mail → ℕ → Option Conn
init_connection malloced curr_mail to_num = do
  reciever ← get_elem? curr_mail.recievers to_num
  address ← get_elem? curr_mail.hosts to_num
  number ← get_elem? curr_mail.ports to_num
  some (record {
    mail = curr_mail;
    to = reciever;
    sender = curr_mail.sender;
    host = address;
    port = number;
    state = init;
    socket = malloced.left_socket;
    send_buf = [];
    receive_buf = [];
    sended = 0;
    to_send = 0;
    received = 0;
    to_receive = 0;
    system = malloced.left_system;
  })

-- The counts lie within the buffers; behind them there may be bytes that were used already.
pub record IsValid (c : Conn) : Type 0 where
  pub sending : c.to_send ≤ length c.send_buf
  pub receiving : c.to_receive ≤ length c.receive_buf

-- What waits to be sent, and what was received and not yet used.
abbrev pub pending : Conn → Bytes
pending c = take c.to_send c.send_buf

abbrev pub unread : Conn → Bytes
unread c = take c.to_receive c.receive_buf
