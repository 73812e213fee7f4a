-- ===== src/Exchange.antt =====
-- The client of this repository against its server: client/src/client.c and server/src/server.c take
-- turns, and what one of them sends is what the other one reads.
pub mod ClientTurns
pub mod ServerTurns
pub mod Commands
pub mod Stages
pub mod Mails
mod Examples
use iu7_pvs_cp.Base.{
  ℕ, zero, suc, ◌+◌, true, List, [], ◌∷◌, ◌++◌, Option, none, some, Bytes, codes, length, ltb,
  if◌then◌else◌, FdSet,
}
use iu7_pvs_cp.Client.Connection.{Conn}
use iu7_pvs_cp.Client.Io.{
  recv_bytes, ReadResult, read_exited, read_fault, out_of_fuel, read_done, process_conn_read,
  send_size, offered, conn_write,
}
use iu7_pvs_cp.Smtp.Session.{Session}
use iu7_pvs_cp.Server.{Served, read_client, strcat_all}

-- What a turn of the client leaves, and the bytes that it sent.
pub record ClientTurn : Type 0 where
  pub conn : Conn
  pub write_fs : FdSet
  pub bytes : Bytes

-- Behind the read event, `send` takes all that it is offered.
abbrev pub on_read : ReadResult → Option ClientTurn
on_read read_exited = none
on_read read_fault = none
on_read out_of_fuel = none
on_read (read_done d) = some (record {
  conn = conn_write d.conn (send_size d.conn);
  write_fs = d.write_fs;
  bytes = offered d.conn;
})

-- A read event with a reply of the server, and a write event.
unfoldable pub client_turn : Conn → FdSet → Bytes → Option ClientTurn
unfolding process_conn_read offered conn_write
client_turn c set reply =
    on_read (process_conn_read (suc (c.to_receive + length reply)) (recv_bytes reply) c set)

abbrev pub on_served : Served → Option (Session × Bytes)
on_served Served.fault = none
on_served Served.out_of_fuel = none
on_served (Served.served p) = some (p.session, strcat_all p.sent)

-- SERVER_COMMAND_MAX_LEN
abbrev pub command_max_len : ℕ
command_max_len = 1024

-- One read of the server, while memory lasts: the session behind it and what was sent. More bytes
-- than a read takes are `none`.
unfoldable pub server_turn : Session → Bytes → Option (Session × Bytes)
unfolding read_client strcat_all
server_turn s bytes =
    if ltb command_max_len (length bytes)
    then none
    else on_served (read_client (suc (length bytes)) true s bytes)

-- Both sides behind some turns, with the reply that the client reads next.
pub record Both : Type 0 where
  pub conn : Conn
  pub write_fs : FdSet
  pub session : Session
  pub reply : Bytes

abbrev then_server : Option ClientTurn → (ClientTurn → Option Both) → Option Both
then_server none f = none
then_server (some t) f = f t

abbrev then_client : Option (Session × Bytes) → (Session × Bytes → Option Both) → Option Both
then_client none f = none
then_client (some r) f = f r

-- One turn of each side.
unfoldable pub exchange_once : Both → Option Both
exchange_once b = then_server (client_turn b.conn b.write_fs b.reply) (λ t.
    then_client (server_turn b.session t.bytes)
      (λ r. some (record { conn = t.conn; write_fs = t.write_fs; session = r.0; reply = r.1 })))

abbrev then_exchange : Option Both → (Both → Option Both) → Option Both
then_exchange none f = none
then_exchange (some b) f = f b

unfoldable pub exchange : ℕ → Both → Option Both
unfolding exchange_once
exchange zero b = some b
exchange (suc n) b = then_exchange (exchange_once b) (exchange n)
