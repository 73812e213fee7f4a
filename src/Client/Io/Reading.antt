-- ===== src/Client/Io/Reading.antt =====
-- `process_conn_read` of client/src/client.c: it ends, what a reply does, and where it fails.
use iu7_pvs_cp.Base.{
  ℕ, zero, suc, ◌+◌, ◌≤◌, ◌<◌, Bool, true, false, [], ◌∷◌, Option, none, some, ◌≡◌, ◌≢◌, ◌⊎◌, inl,
  inr, Bytes, length, arith, Bool-cases,
}
use iu7_pvs_cp.Client.Connection.{Conn, FdSet}
use iu7_pvs_cp.Client.Handlers.{StepResult, exited, fault, stepped}
use iu7_pvs_cp.Client.Messages.{Part, Verdict, bad, more, good}
use iu7_pvs_cp.Client.Messages.Parts.{Shorter, try_parse_message_part-Shorter}
use iu7_pvs_cp.Client.Io.{
  Recv, recv_failed, recv_bytes, store_received, ReadResult, out_of_fuel, after_step, step_on,
  after_part, judged, next_part, nothing_left, on_verdict, on_message, on_part, read_loop,
  process_conn_read, Send, send_failed, send_taken, process_conn_write,
}

-- How many bytes `recv` gave.
abbrev pub received_size : Recv → ℕ
received_size recv_failed = 0
received_size (recv_bytes bytes) = length bytes

pub after_step-ne_fuel : (r : StepResult) (b : Bool) → after_step r b ≢ out_of_fuel
after_step-ne_fuel exited b e = cc
after_step-ne_fuel fault b e = cc
after_step-ne_fuel (stepped h) b e = cc

on_verdict-ne_fuel :
    (w : Verdict) (c : Conn) (set : FdSet) (again : ReadResult)
    → again ≢ out_of_fuel
    → on_verdict w c set again ≢ out_of_fuel
unfolding on_verdict step_on
on_verdict-ne_fuel bad c set again h = after_step-ne_fuel _ true
on_verdict-ne_fuel more c set again h = h
on_verdict-ne_fuel good c set again h = after_step-ne_fuel _ true

on_message-ne_fuel :
    (m : Option Bytes) (c : Conn) (set : FdSet) (again : ReadResult)
    → (m ≡ none) ⊎ (again ≢ out_of_fuel)
    → on_message m c set again ≢ out_of_fuel
unfolding on_message
on_message-ne_fuel none c set again h = λ e. cc
on_message-ne_fuel (some m) c set again (inl e) = cc
on_message-ne_fuel (some m) c set again (inr h) = on_verdict-ne_fuel (judged c m) c set again h

on_part-ne_fuel :
    (o : Option Part) (c : Conn) (set : FdSet) (again : Conn → ReadResult) (n : ℕ)
    → Shorter n o
    → ((d : Conn) → d.to_receive + 2 ≤ n → again d ≢ out_of_fuel)
    → on_part o c set again ≢ out_of_fuel
unfolding on_part after_part
on_part-ne_fuel none c set again n h k = λ e. cc
on_part-ne_fuel (some p) c set again n h k = elim (Bool-cases (nothing_left p.new_len p.message)) [
  | inl t ↦ rw (t, on_part) (λ e. cc)
  | inr t ↦ rw (t, on_part) (on_message-ne_fuel p.message d set (again d) (ends h))
]
  where
    d : Conn
    d = record (after_part c p) { received = c.received + p.len }

    ends : Shorter n (some p) → (p.message ≡ none) ⊎ (again d ≢ out_of_fuel)
    ends (inl e) = inl e
    ends (inr l) = inr (k d l)

read_loop-ne_fuel :
    (fuel : ℕ) (c : Conn) (set : FdSet) → c.to_receive < fuel → read_loop fuel c set ≢ out_of_fuel
unfolding read_loop
read_loop-ne_fuel zero c set h = omega arith
read_loop-ne_fuel (suc fuel) c set h =
    on_part-ne_fuel (next_part c) c set (λ d. read_loop fuel d set) c.to_receive
      (try_parse_message_part-Shorter c.system (c.system.behind_buffer c.received) c.receive_buf
        c.to_receive c.to_receive)
      (λ d l. read_loop-ne_fuel fuel d set (omega arith))

-- `process_conn_read` ends: with more fuel than there are bytes to receive, those of this call
-- included, its result is never the lack of fuel.
pub process_conn_read-ne_fuel :
    (fuel : ℕ) (r : Recv) (c : Conn) (set : FdSet)
    → c.to_receive + received_size r < fuel
    → process_conn_read fuel r c set ≢ out_of_fuel
unfolding process_conn_read store_received
process_conn_read-ne_fuel fuel recv_failed c set h = after_step-ne_fuel _ false
process_conn_read-ne_fuel fuel (recv_bytes []) c set h = after_step-ne_fuel _ true
process_conn_read-ne_fuel fuel (recv_bytes (b ∷ bs)) c set h =
    read_loop-ne_fuel fuel (store_received c (b ∷ bs)) set h

pub process_conn_write-ne_fuel :
    (s : Send) (c : Conn) (set : FdSet) → process_conn_write s c set ≢ out_of_fuel
unfolding process_conn_write step_on
process_conn_write-ne_fuel send_failed c set = after_step-ne_fuel _ false
process_conn_write-ne_fuel (send_taken len) c set = λ e. cc
