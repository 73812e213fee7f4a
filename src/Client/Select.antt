-- ===== src/Client/Select.antt =====
-- client/src/client.c: `process_mails` from the connections of the mails to the end of its loop over
-- `select`, and `connection_start` of client/src/smtp_conn.c. saveReadFS is given to `select` only, whose
-- answer is an argument; the sockets are below FD_SETSIZE.
pub mod Start
pub mod Passes
pub mod Reports
mod Examples
use iu7_pvs_cp.Base.{
  ℕ, zero, suc, ◌+◌, Bool, true, false, not, ◌&&◌, List, [], ◌∷◌, ◌++◌, map, Option, none, some,
  Bytes, codes, length, ◌==◌, ltb, if◌then◌else◌, FdSet, fd_set, fd_setsize,
}
use iu7_pvs_cp.Client.Fsm.{FsmState, finish}
use iu7_pvs_cp.Client.Connection.{Malloced, Mail, Conn, init_connection}
use iu7_pvs_cp.Client.Io.{Recv, Send, ReadDone, ReadResult, process_conn_read, process_conn_write}
use iu7_pvs_cp.Client.Io.Reading.{received_size}
use iu7_pvs_cp.Client.Pool.{
  count_mails_connections, get_active_connection, check_connections_for_finish,
  set_connections_need_write,
}

-- `none` is a write behind the array, a read behind the arrays of the mail, or what follows a NULL of
-- `init_connection`: the array is freed and then written. `malloced` gives for every connection what
-- `malloc` left in its field `socket`, and `none` for NULL.
unfoldable pub init_mail : (ℕ → Option Malloced) → ℕ → Mail → ℕ → ℕ → List Conn → Option (List Conn)
init_mail malloced conns_count curr_mail zero j connections = some connections
init_mail malloced conns_count curr_mail (suc left) j connections =
    elim (malloced (length connections)) [
      | none ↦ none
      | some socket ↦ elim (init_connection socket curr_mail j) [
        | none ↦ none
        | some new_conn ↦
            let rest =
              init_mail malloced conns_count curr_mail left (suc j)
                (connections ++ new_conn ∷ []) in
            if ltb (length connections) conns_count then rest else none
      ]
    ]

abbrev pub then_mails : Option (List Conn) → (List Conn → Option (List Conn)) → Option (List Conn)
then_mails none f = none
then_mails (some connections) f = f connections

unfoldable pub init_mails : (ℕ → Option Malloced) → ℕ → List Mail → List Conn → Option (List Conn)
unfolding init_mail
init_mails malloced conns_count [] connections = some connections
init_mails malloced conns_count (m ∷ ms) connections =
    then_mails (init_mail malloced conns_count m m.tos_count 0 connections)
      (λ cs. init_mails malloced conns_count ms cs)

-- The connections behind `malloc` of the array.
unfoldable pub init_connections : (ℕ → Option Malloced) → List Mail → ℕ → Option (List Conn)
unfolding init_mails
init_connections malloced mails conns_count = init_mails malloced conns_count mails []

-- What `socket` gives, where `none` is -1, and whether `connect` succeeds; `none` is the result -1.
unfoldable pub connection_start : Option ℕ × Bool → Conn → Option Conn
connection_start (none, connected) connection = none
connection_start (some sock, connected) connection =
    if connected then some (record connection { socket = sock }) else none

-- `none` is the result -1, behind which the connections are cleared. The step of the state machine
-- on the connection that fails has no other effect.
unfoldable pub connections_start : (ℕ → Option ℕ × Bool) → ℕ → List Conn → Option (List Conn)
unfolding connection_start
connections_start started i [] = some []
connections_start started i (c ∷ cs) = elim (connection_start (started i) c) [
  | none ↦ none
  | some c' ↦ elim (connections_start started (suc i) cs) [
    | none ↦ none
    | some cs' ↦ some (c' ∷ cs')
  ]
]

-- The variables of the loop over `select`.
pub record Pool : Type 0 where
  pub connections : List Conn
  pub save_write_fs : FdSet

-- What the system gives in a round: -1, or the sets of descriptors that can be read and written,
-- and what `recv` and `send` give on them.
pub data Wake : Type 0 where
  failed : Wake
  ready : FdSet → FdSet → (ℕ → Recv) → (ℕ → Send) → Wake

-- `closed` is the result -1 because of the pipe.
pub data Passed : Type 0 where
  exited : Passed
  fault : Passed
  out_of_fuel : Passed
  closed : Passed
  passed : Pool → Passed

-- The connection is written where `get_active_connection` found it.
abbrev pub put_active : List Conn → ℕ → Conn → List Conn
put_active [] socket c' = []
put_active (c ∷ cs) socket c' =
    let rest = c ∷ put_active cs socket c' in if c.socket == socket then c' ∷ cs else rest

-- Behind `process_conn_read` or `process_conn_write` of the connection with socket `fd`.
abbrev pub after_io : Pool → ℕ → ReadResult → (Conn → Pool → Passed) → Passed
after_io pool fd ReadResult.read_exited next = exited
after_io pool fd ReadResult.read_fault next = fault
after_io pool fd ReadResult.out_of_fuel next = out_of_fuel
after_io pool fd (ReadResult.read_done d) next =
    next d.conn
      (record { connections = put_active pool.connections fd d.conn; save_write_fs = d.write_fs })

-- The two calls, each on its own set. A read takes at most one round of its loop for every byte.
unfoldable pub on_write : Bool → Send → ℕ → Conn → Pool → Passed
on_write writable send fd curr_conn pool =
    if writable
    then after_io pool fd (process_conn_write send curr_conn pool.save_write_fs)
        (λ c next. passed next)
    else passed pool

unfoldable pub on_active : Bool → Bool → Recv → Send → ℕ → Conn → Pool → Passed
unfolding on_write
on_active readable writable recv send fd curr_conn pool =
    if readable
    then after_io pool fd
        (process_conn_read (suc (curr_conn.to_receive + received_size recv)) recv curr_conn
          pool.save_write_fs)
        (λ c next. on_write writable send fd c next)
    else on_write writable send fd curr_conn pool

abbrev pub on_found : Option Conn → Pool → (Conn → Passed) → Passed
on_found none pool f = passed pool
on_found (some curr_conn) pool f = f curr_conn

-- One pass of the loop over the descriptors.
unfoldable pub fd_pass : ℕ → Bool → Bool → Recv → Send → ℕ → Pool → Passed
unfolding on_active
fd_pass pipe_descr readable writable recv send i pool =
    if not readable && not writable
    then passed pool
    else if i == pipe_descr
    then closed
    else on_found (get_active_connection pool.connections i) pool
        (λ c. on_active readable writable recv send i c pool)

abbrev pub then_pass : Passed → (Pool → Passed) → Passed
then_pass exited next = exited
then_pass fault next = fault
then_pass out_of_fuel next = out_of_fuel
then_pass closed next = closed
then_pass (passed pool) next = next pool

-- The loop from descriptor `i` on, `left` before its end.
unfoldable pub fd_passes : ℕ → FdSet → FdSet → (ℕ → Recv) → (ℕ → Send) → ℕ → ℕ → Pool → Passed
unfolding fd_pass
fd_passes pipe_descr read_fs write_fs recv send zero i pool = passed pool
fd_passes pipe_descr read_fs write_fs recv send (suc left) i pool =
    then_pass (fd_pass pipe_descr (read_fs i) (write_fs i) (recv i) (send i) i pool)
      (λ next. fd_passes pipe_descr read_fs write_fs recv send left (suc i) next)

-- The result of `process_mails`: `returned_error` is -1, `waiting` a loop that goes on, and
-- `finished` is 0, with the connections and what was logged of each.
pub data Processed : Type 0 where
  exited : Processed
  fault : Processed
  out_of_fuel : Processed
  returned_error : Processed
  waiting : Pool → Processed
  finished : List Conn → List Bytes → Processed

abbrev pub is_finish : FsmState → Bool
is_finish finish = true
is_finish _ = false

-- sprintf(log_str, ...)
abbrev pub report : Conn → Bytes
report c =
    (if is_finish c.state
      then codes "Successfully send mail to "
      else codes "Failed to send mail to ")
    ++ c.to
    ++ codes "\n"

abbrev pub one_more : Bytes → Option (List Bytes) → Option (List Bytes)
one_more r none = none
one_more r (some rs) = some (r ∷ rs)

-- `log_str` has 500 bytes.
unfoldable pub reports : List Conn → Option (List Bytes)
reports [] = some []
reports (c ∷ cs) =
    let rest = one_more (report c) (reports cs) in
    if ltb (length (report c)) 500 then rest else none

abbrev pub on_reports : List Conn → Option (List Bytes) → Processed
on_reports connections none = Processed.fault
on_reports connections (some log) = finished connections log

abbrev pub on_passed : Passed → (Pool → Processed) → Processed
on_passed Passed.exited next = Processed.exited
on_passed Passed.fault next = Processed.fault
on_passed Passed.out_of_fuel next = Processed.out_of_fuel
on_passed Passed.closed next = returned_error
on_passed (Passed.passed pool) next = next pool

-- The loop over `select`; at the end of the list of rounds it goes on.
unfoldable pub select_loop : ℕ → List Wake → Pool → Processed
unfolding fd_passes reports
select_loop pipe_descr [] pool = waiting pool
select_loop pipe_descr (failed ∷ wakes) pool = returned_error
select_loop pipe_descr (ready read_fs write_fs recv send ∷ wakes) pool =
    on_passed (fd_passes pipe_descr read_fs write_fs recv send fd_setsize 0 pool) (λ next.
      let again = select_loop pipe_descr wakes (record {
        connections = next.connections;
        save_write_fs = set_connections_need_write next.connections;
      }) in
      if check_connections_for_finish next.connections
      then on_reports next.connections (reports next.connections)
      else again)

abbrev pub on_started : ℕ → List Wake → Option (List Conn) → Processed
on_started pipe_descr wakes none = returned_error
on_started pipe_descr wakes (some connections) =
    select_loop pipe_descr wakes (record { connections = connections; save_write_fs = λ fd. false })

abbrev pub on_initialised : (List Conn → Processed) → Option (List Conn) → Processed
on_initialised next none = Processed.fault
on_initialised next (some connections) = next connections

-- `alloc` says whether `malloc` gives the array.
unfoldable pub process_mails :
    Bool → (ℕ → Option Malloced) → (ℕ → Option ℕ × Bool) → ℕ → List Wake → List Mail → Processed
unfolding init_connections connections_start select_loop
process_mails alloc malloced started pipe_descr wakes mails =
    if alloc
    then on_initialised
        (λ connections. on_started pipe_descr wakes (connections_start started 0 connections))
        (init_connections malloced mails (count_mails_connections mails))
    else returned_error
