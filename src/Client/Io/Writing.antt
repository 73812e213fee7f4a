-- ===== src/Client/Io/Writing.antt =====
-- `process_conn_write` of client/src/client.c: no byte is lost or sent twice.
use iu7_pvs_cp.Client.Messages.Copies.{Copies}
