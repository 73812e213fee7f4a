-- ===== src/Client/Io/Targets.antt =====
-- The receiver and the socket of a connection through the events of client/src/client.c.
use iu7_pvs_cp.Base.{
  ℕ, ◌+◌, zero, suc, Bool, true, false, [], ◌∷◌, Option, none, some, refl, ◌∙◌, Bytes, FdSet,
  Bool-cases, inl, inr,
}
use iu7_pvs_cp.Client.Fsm.{FsmEvent}
use iu7_pvs_cp.Client.Connection.{Conn}
use iu7_pvs_cp.Client.Handlers.{StepResult, client_fsm_step}
use iu7_pvs_cp.Client.Handlers.Targets.{
  SameTarget, StepKeeps, step_exited, step_faulted, step_kept, same, client_fsm_step-StepKeeps,
}
use iu7_pvs_cp.Client.Messages.{Part, Verdict, bad, more, good}
use iu7_pvs_cp.Client.Io.{
  Recv, recv_failed, recv_bytes, ReadDone, ReadResult, read_exited, read_fault, out_of_fuel,
  read_done, store_received, after_step, step_on, after_part, nothing_left, judged, next_part,
  on_verdict, on_message, on_part, read_loop, process_conn_read, conn_write, Send, send_failed,
  send_taken, process_conn_write,
}

-- A result that is an exit, a fault or a lack of fuel, or keeps the target.
pub data IoKeeps (c : Conn) : ReadResult → Type 0 where
  io_exited : IoKeeps c read_exited
  io_faulted : IoKeeps c read_fault
  io_starved : IoKeeps c out_of_fuel
  io_kept : {d : ReadDone} → SameTarget c d.conn → IoKeeps c (read_done d)

after_step-IoKeeps :
    (c : Conn) (r : StepResult) (b : Bool) → StepKeeps c r → IoKeeps c (after_step r b)
after_step-IoKeeps c _ b step_exited = io_exited
after_step-IoKeeps c _ b step_faulted = io_faulted
after_step-IoKeeps c _ b (step_kept s) = io_kept s

step_on-IoKeeps :
    (ev : FsmEvent) (c : Conn) (set : FdSet) (b : Bool) → IoKeeps c (step_on ev c set b)
unfolding step_on
step_on-IoKeeps ev c set b =
    after_step-IoKeeps c (client_fsm_step c.state ev c set) b
      (client_fsm_step-StepKeeps c.state ev c set)

-- The target of a connection whose counts and buffers alone differ.
retarget : {c d : Conn} {r : ReadResult} → SameTarget c d → IoKeeps d r → IoKeeps c r
retarget s io_exited = io_exited
retarget s io_faulted = io_faulted
retarget s io_starved = io_starved
retarget s (io_kept t) = io_kept (same (t.receiver ∙ s.receiver) (t.socket ∙ s.socket))

on_message-IoKeeps :
    (m : Option Bytes) (c : Conn) (set : FdSet) (again : ReadResult)
    → IoKeeps c again
    → IoKeeps c (on_message m c set again)
unfolding on_message on_verdict
on_message-IoKeeps none c set again h = io_faulted
on_message-IoKeeps (some m) c set again h = of_verdict (judged c m)
  where
    of_verdict : (v : Verdict) → IoKeeps c (on_verdict v c set again)
    of_verdict bad = step_on-IoKeeps _ c set true
    of_verdict more = h
    of_verdict good = step_on-IoKeeps _ c set true

on_part-IoKeeps :
    (o : Option Part) (c : Conn) (set : FdSet) (again : Conn → ReadResult)
    → ((d : Conn) → SameTarget c d → IoKeeps d (again d))
    → IoKeeps c (on_part o c set again)
unfolding on_part after_part
on_part-IoKeeps none c set again h = io_faulted
on_part-IoKeeps (some p) c set again h = elim (Bool-cases (nothing_left p.new_len p.message)) [
  | inl t ↦ rw (t, on_part) (io_kept (same refl refl))
  | inr t ↦
      rw (t, on_part)
        (retarget (same refl refl)
          (on_message-IoKeeps p.message d set (again d) (h d (same refl refl))))
]
  where
    d : Conn
    d = record (after_part c p) { received = c.received + p.len }

read_loop-IoKeeps : (fuel : ℕ) (c : Conn) (set : FdSet) → IoKeeps c (read_loop fuel c set)
unfolding read_loop
read_loop-IoKeeps zero c set = io_starved
read_loop-IoKeeps (suc fuel) c set =
    on_part-IoKeeps (next_part c) c set (λ d. read_loop fuel d set)
      (λ d s. read_loop-IoKeeps fuel d set)

pub process_conn_read-IoKeeps :
    (fuel : ℕ) (r : Recv) (c : Conn) (set : FdSet) → IoKeeps c (process_conn_read fuel r c set)
unfolding process_conn_read store_received
process_conn_read-IoKeeps fuel recv_failed c set = step_on-IoKeeps _ c set false
process_conn_read-IoKeeps fuel (recv_bytes []) c set = step_on-IoKeeps _ c set true
process_conn_read-IoKeeps fuel (recv_bytes (b ∷ bs)) c set =
    retarget (same refl refl) (read_loop-IoKeeps fuel (store_received c (b ∷ bs)) set)

pub process_conn_write-IoKeeps :
    (s : Send) (c : Conn) (set : FdSet) → IoKeeps c (process_conn_write s c set)
unfolding process_conn_write conn_write
process_conn_write-IoKeeps send_failed c set = step_on-IoKeeps _ c set false
process_conn_write-IoKeeps (send_taken len) c set = io_kept (same refl refl)
