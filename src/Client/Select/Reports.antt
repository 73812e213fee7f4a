-- ===== src/Client/Select/Reports.antt =====
-- What `process_mails` of client/src/client.c reports of the receivers of its mails.
use iu7_pvs_cp.Base.{
  ℕ, suc, Bool, true, false, List, [], ◌∷◌, map, Option, none, some, ◌≡◌, ◌≢◌, refl, ap, subst,
  Bytes, length, ltb, All, Bool-cases, inl, inr, ◌⊎◌, if◌then◌else◌,
}
use iu7_pvs_cp.Client.Fsm.{is_terminal}
use iu7_pvs_cp.Client.Connection.{Malloced, Mail, Conn}
use iu7_pvs_cp.Client.Pool.{
  check_connections_for_finish, check_connections_for_finish_iff, set_connections_need_write,
}
use iu7_pvs_cp.Client.Select.{
  on_initialised, connection_start, connections_start, Pool, Wake, failed, ready, Passed, Processed,
  finished, waiting, report, one_more, reports, on_reports, on_passed, select_loop, on_started,
  process_mails,
}
use iu7_pvs_cp.Client.Select.Passes.{
  targets, PassKeeps, pass_exited, pass_faulted, pass_closed, pass_kept, fd_passes-PassKeeps,
}
use iu7_pvs_cp.Client.Select.Start.{IsCounted, all_receivers, init_connections-fills}

-- An exit, a fault, the result -1, a loop that goes on with the connections to these receivers, or
-- its end, where all connections are in a terminal state and one line was logged of each.
pub data Reported (rs : List Bytes) : Processed → Type 0 where
  is_exited : Reported rs Processed.exited
  is_faulted : Reported rs Processed.fault
  is_error : Reported rs Processed.returned_error
  is_waiting : {pool : Pool} → targets pool.connections ≡ rs → Reported rs (waiting pool)
  is_finished :
      {cs : List Conn} {log : List Bytes}
      → targets cs ≡ rs
      → All (λ c. is_terminal c.state ≡ true) cs
      → log ≡ map report cs
      → Reported rs (finished cs log)

reports-cases : (cs : List Conn) → (reports cs ≡ none) ⊎ (reports cs ≡ some (map report cs))
unfolding reports
reports-cases [] = inr refl
reports-cases (c ∷ cs) = elim (Bool-cases (ltb (length (report c)) 500)) [
  | inl e ↦ elim (reports-cases cs) [
    | inl k ↦ inl (rw e (ap (one_more (report c)) k))
    | inr k ↦ inr (rw e (ap (one_more (report c)) k))
  ]
  | inr e ↦ inl (rw e refl)
]

Reported-if :
    {rs : List Bytes} (b : Bool) {x y : Processed}
    → (b ≡ true → Reported rs x)
    → Reported rs y
    → Reported rs (if b then x else y)
Reported-if true h k = h refl
Reported-if false h k = k

on_reports-Reported :
    (cs : List Conn)
    → All (λ c. is_terminal c.state ≡ true) cs
    → Reported (targets cs) (on_reports cs (reports cs))
on_reports-Reported cs h = elim (reports-cases cs) [
  | inl e ↦ rw (e, on_reports) is_faulted
  | inr e ↦ rw (e, on_reports) (is_finished refl h refl)
]

on_passed-Reported :
    {rs : List Bytes} (r : Passed) (next : Pool → Processed)
    → PassKeeps rs r
    → ((pool : Pool) → Reported (targets pool.connections) (next pool))
    → Reported rs (on_passed r next)
on_passed-Reported _ next pass_exited h = is_exited
on_passed-Reported _ next pass_faulted h = is_faulted
on_passed-Reported _ next pass_closed h = is_error
on_passed-Reported _ next (pass_kept {pool = pool} t) h =
    subst (λ rs. Reported rs (next pool)) t (h pool)

select_loop-Reported :
    (pipe_descr : ℕ) (wakes : List Wake) (pool : Pool)
    → Reported (targets pool.connections) (select_loop pipe_descr wakes pool)
unfolding select_loop
select_loop-Reported pipe_descr [] pool = is_waiting refl
select_loop-Reported pipe_descr (failed ∷ wakes) pool = is_error
select_loop-Reported pipe_descr (ready read_fs write_fs recv send ∷ wakes) pool =
    on_passed-Reported _ _ (fd_passes-PassKeeps pipe_descr read_fs write_fs recv send 1024 0 pool)
      (λ next.
        Reported-if (check_connections_for_finish next.connections)
          (λ e.
            on_reports-Reported next.connections
              ((check_connections_for_finish_iff next.connections).0 e))
          (select_loop-Reported pipe_descr wakes (record {
            connections = next.connections;
            save_write_fs = set_connections_need_write next.connections;
          })))

connection_start-cases :
    (o : Option ℕ × Bool) (c : Conn)
    → (connection_start o c ≡ none) ⊎ ((d : Conn) × (connection_start o c ≡ some d) × (d.to ≡ c.to))
unfolding connection_start
connection_start-cases (none, connected) c = inl refl
connection_start-cases (some sock, true) c = inr (record c { socket = sock }, refl, refl)
connection_start-cases (some sock, false) c = inl refl

-- Connecting changes no receiver.
connections_start-targets :
    (started : ℕ → Option ℕ × Bool) (i : ℕ) (cs : List Conn)
    → (connections_start started i cs ≡ none)
      ⊎ ((ds : List Conn) × (connections_start started i cs ≡ some ds) × (targets ds ≡ targets cs))
unfolding connections_start
connections_start-targets started i [] = inr ([], refl, refl)
connections_start-targets started i (c ∷ cs) = elim (connection_start-cases (started i) c) [
  | inl e ↦ inl (rw (e, connections_start) refl)
  | inr (d, e, t) ↦ elim (connections_start-targets started (suc i) cs) [
    | inl k ↦ inl (rw (e, connections_start) (rw (k, connections_start) refl))
    | inr (ds, k, u) ↦
        inr (d ∷ ds, rw (e, connections_start) (rw (k, connections_start) refl), cc (t, u))
  ]
]

on_started-Reported :
    (pipe_descr : ℕ) (wakes : List Wake) (started : ℕ → Option ℕ × Bool) (cs : List Conn)
    → Reported (targets cs) (on_started pipe_descr wakes (connections_start started 0 cs))
on_started-Reported pipe_descr wakes started cs = elim (connections_start-targets started 0 cs) [
  | inl e ↦ rw (e, on_started) is_error
  | inr (ds, e, t) ↦
      rw (e, on_started)
        (subst (λ rs. Reported rs (select_loop pipe_descr wakes (start ds))) t
          (select_loop-Reported pipe_descr wakes (start ds)))
]
  where
    start : List Conn → Pool
    start ds = record { connections = ds; save_write_fs = λ fd. false }

-- When `init_connection` always has memory and the counts of the mails are the lengths of their
-- arrays, then whatever the sockets and `select` give, `process_mails` ends in an exit of the
-- state machine, a fault or -1, or goes on with one connection for each receiver of each mail,
-- in order, or returns 0 with all of these connections in a terminal state and one line logged
-- for each receiver, which says whether the state is FINISH; no read of a connection runs
-- forever.
pub process_mails-Reported :
    (alloc : Bool) (malloced : ℕ → Option Malloced) (started : ℕ → Option ℕ × Bool) (pipe_descr : ℕ)
    (wakes : List Wake) (mails : List Mail)
    → ((i : ℕ) → malloced i ≢ none)
    → All IsCounted mails
    → Reported (all_receivers mails) (process_mails alloc malloced started pipe_descr wakes mails)
unfolding process_mails
process_mails-Reported false malloced started pipe_descr wakes mails h k = is_error
process_mails-Reported true malloced started pipe_descr wakes mails h k =
    let f = init_connections-fills malloced mails h k in
    rw (f.1, on_initialised)
      (subst (λ rs. Reported rs (on_started pipe_descr wakes (connections_start started 0 f.0)))
        f.3.to_all (on_started-Reported pipe_descr wakes started f.0))
