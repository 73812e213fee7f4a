-- ===== src/Client/Select/Passes.antt =====
-- One round of `process_mails` in client/src/client.c: the connections keep their receivers.
use iu7_pvs_cp.Base.{
  ℕ, zero, suc, ◌+◌, Bool, true, false, not, ◌&&◌, List, [], ◌∷◌, map, some, ◌≡◌, ◌≢◌, refl, ap,
  sym, ◌∙◌, subst, Bytes, ◌==◌, ==_iff, arith, Bool-cases, Option-cases, inl, inr, if◌then◌else◌,
  FdSet,
}
use iu7_pvs_cp.Client.Connection.{Conn}
use iu7_pvs_cp.Client.Io.{Recv, Send, ReadResult, process_conn_read, process_conn_write}
use iu7_pvs_cp.Client.Io.Reading.{
  received_size, process_conn_read-ne_fuel, process_conn_write-ne_fuel,
}
use iu7_pvs_cp.Client.Io.Targets.{
  IoKeeps, io_exited, io_faulted, io_starved, io_kept, process_conn_read-IoKeeps,
  process_conn_write-IoKeeps,
}
use iu7_pvs_cp.Client.Pool.{get_active_connection}
use iu7_pvs_cp.Client.Select.{
  Pool, Passed, put_active, after_io, on_write, on_active, on_found, fd_pass, then_pass, fd_passes,
}

abbrev pub targets : List Conn → List Bytes
targets cs = map (λ c. c.to) cs

-- An exit, a fault, the end because of the pipe, or connections to these receivers.
pub data PassKeeps (rs : List Bytes) : Passed → Type 0 where
  pass_exited : PassKeeps rs Passed.exited
  pass_faulted : PassKeeps rs Passed.fault
  pass_closed : PassKeeps rs Passed.closed
  pass_kept : {pool : Pool} → targets pool.connections ≡ rs → PassKeeps rs (Passed.passed pool)

-- The connection that a socket has, found or not.
module _ (fd : ℕ) where
  get_active_connection-cons :
      (c : Conn) (cs : List Conn) {b : Bool}
      → (c.socket == fd) ≡ b
      → get_active_connection (c ∷ cs) fd ≡ (if b then some c else get_active_connection cs fd)
  unfolding get_active_connection
  get_active_connection-cons c cs e = rw e refl

  put_active-cons :
      (c : Conn) (cs : List Conn) (c' : Conn) {b : Bool}
      → (c.socket == fd) ≡ b
      → put_active (c ∷ cs) fd c' ≡ (if b then c' ∷ cs else c ∷ put_active cs fd c')
  put_active-cons c cs c' e = rw e refl

  inside : {x y : Conn} → some x ≡ some y → x ≡ y
  inside e = cc e

  found-socket : (cs : List Conn) (c : Conn) → get_active_connection cs fd ≡ some c → c.socket ≡ fd
  unfolding get_active_connection
  found-socket [] c e = absurd (cc e)
  found-socket (x ∷ cs) c e = elim (Bool-cases (x.socket == fd)) [
    | inl b ↦
        sym (ap (λ d. d.socket) (inside (sym (get_active_connection-cons x cs b) ∙ e)))
        ∙ (==_iff x.socket fd).0 b
    | inr b ↦ found-socket cs c (sym (get_active_connection-cons x cs b) ∙ e)
  ]

  targets-put_active :
      (cs : List Conn) (c c' : Conn)
      → get_active_connection cs fd ≡ some c
      → c'.to ≡ c.to
      → targets (put_active cs fd c') ≡ targets cs
  targets-put_active [] c c' e t = refl
  targets-put_active (x ∷ cs) c c' e t = elim (Bool-cases (x.socket == fd)) [
    | inl b ↦
        let q = inside (sym (get_active_connection-cons x cs b) ∙ e) in
        ap targets (put_active-cons x cs c' b)
        ∙ ap (λ r. r ∷ targets cs) (t ∙ sym (ap (λ d. d.to) q))
    | inr b ↦
        ap targets (put_active-cons x cs c' b)
        ∙ ap (◌∷◌ x.to) (targets-put_active cs c c' (sym (get_active_connection-cons x cs b) ∙ e) t)
  ]

  found-put_active :
      (cs : List Conn) (c c' : Conn)
      → get_active_connection cs fd ≡ some c
      → c'.socket ≡ fd
      → get_active_connection (put_active cs fd c') fd ≡ some c'
  unfolding get_active_connection
  found-put_active [] c c' e s = absurd (cc e)
  found-put_active (x ∷ cs) c c' e s = elim (Bool-cases (x.socket == fd)) [
    | inl b ↦
        ap (λ l. get_active_connection l fd) (put_active-cons x cs c' b)
        ∙ get_active_connection-cons c' cs ((==_iff c'.socket fd).1 s)
    | inr b ↦
        ap (λ l. get_active_connection l fd) (put_active-cons x cs c' b)
        ∙ get_active_connection-cons x (put_active cs fd c') b
        ∙ found-put_active cs c c' (sym (get_active_connection-cons x cs b) ∙ e) s
  ]

after_io-PassKeeps :
    (pool : Pool) (fd : ℕ) (c : Conn) (r : ReadResult) (next : Conn → Pool → Passed)
    → get_active_connection pool.connections fd ≡ some c
    → IoKeeps c r
    → r ≢ ReadResult.out_of_fuel
    → ((d : Conn) (p : Pool)
        → targets p.connections ≡ targets pool.connections
        → get_active_connection p.connections fd ≡ some d
        → PassKeeps (targets pool.connections) (next d p))
    → PassKeeps (targets pool.connections) (after_io pool fd r next)
after_io-PassKeeps pool fd c _ next e io_exited n h = pass_exited
after_io-PassKeeps pool fd c _ next e io_faulted n h = pass_faulted
after_io-PassKeeps pool fd c _ next e io_starved n h = absurd (n refl)
after_io-PassKeeps pool fd c _ next e (io_kept {d} s) n h =
    h d.conn _ (targets-put_active fd pool.connections c d.conn e s.receiver) (
      found-put_active fd pool.connections c d.conn e
        (s.socket ∙ found-socket fd pool.connections c e))

on_write-PassKeeps :
    (writable : Bool) (send : Send) (fd : ℕ) (c : Conn) (pool : Pool)
    → get_active_connection pool.connections fd ≡ some c
    → PassKeeps (targets pool.connections) (on_write writable send fd c pool)
unfolding on_write
on_write-PassKeeps false send fd c pool e = pass_kept refl
on_write-PassKeeps true send fd c pool e =
    after_io-PassKeeps pool fd c (process_conn_write send c pool.save_write_fs) _ e
      (process_conn_write-IoKeeps send c pool.save_write_fs)
      (process_conn_write-ne_fuel send c pool.save_write_fs) (λ d p t k. pass_kept t)

on_active-PassKeeps :
    (readable writable : Bool) (recv : Recv) (send : Send) (fd : ℕ) (c : Conn) (pool : Pool)
    → get_active_connection pool.connections fd ≡ some c
    → PassKeeps (targets pool.connections) (on_active readable writable recv send fd c pool)
unfolding on_active
on_active-PassKeeps false writable recv send fd c pool e =
    on_write-PassKeeps writable send fd c pool e
on_active-PassKeeps true writable recv send fd c pool e =
    let fuel = suc (c.to_receive + received_size recv) in
    after_io-PassKeeps pool fd c (process_conn_read fuel recv c pool.save_write_fs) _ e
      (process_conn_read-IoKeeps fuel recv c pool.save_write_fs)
      (process_conn_read-ne_fuel fuel recv c pool.save_write_fs (omega arith))
      (λ d p t k.
        subst (λ rs. PassKeeps rs (on_write writable send fd d p)) t
          (on_write-PassKeeps writable send fd d p k))

PassKeeps-if :
    {rs : List Bytes} (b : Bool) {x y : Passed}
    → PassKeeps rs x
    → PassKeeps rs y
    → PassKeeps rs (if b then x else y)
PassKeeps-if true h k = h
PassKeeps-if false h k = k

fd_pass-PassKeeps :
    (pipe_descr : ℕ) (readable writable : Bool) (recv : Recv) (send : Send) (i : ℕ) (pool : Pool)
    → PassKeeps (targets pool.connections) (fd_pass pipe_descr readable writable recv send i pool)
unfolding fd_pass
fd_pass-PassKeeps pipe_descr readable writable recv send i pool =
    PassKeeps-if (not readable && not writable) (pass_kept refl) (
      PassKeeps-if (i == pipe_descr) pass_closed
        (elim (Option-cases (get_active_connection pool.connections i)) [
          | inl e ↦ rw (e, on_found) (pass_kept refl)
          | inr (c, e) ↦
              rw (e, on_found) (on_active-PassKeeps readable writable recv send i c pool e)
        ]))

then_pass-PassKeeps :
    {rs : List Bytes} (r : Passed) (next : Pool → Passed)
    → PassKeeps rs r
    → ((pool : Pool) → PassKeeps (targets pool.connections) (next pool))
    → PassKeeps rs (then_pass r next)
then_pass-PassKeeps _ next pass_exited h = pass_exited
then_pass-PassKeeps _ next pass_faulted h = pass_faulted
then_pass-PassKeeps _ next pass_closed h = pass_closed
then_pass-PassKeeps _ next (pass_kept {pool = pool} t) h =
    subst (λ rs. PassKeeps rs (next pool)) t (h pool)

pub fd_passes-PassKeeps :
    (pipe_descr : ℕ) (read_fs write_fs : FdSet) (recv : ℕ → Recv) (send : ℕ → Send) (left i : ℕ)
    (pool : Pool)
    → PassKeeps
        (targets pool.connections)
        (fd_passes pipe_descr read_fs write_fs recv send left i pool)
unfolding fd_passes
fd_passes-PassKeeps pipe_descr read_fs write_fs recv send zero i pool = pass_kept refl
fd_passes-PassKeeps pipe_descr read_fs write_fs recv send (suc left) i pool =
    then_pass-PassKeeps _ _
      (fd_pass-PassKeeps pipe_descr (read_fs i) (write_fs i) (recv i) (send i) i pool)
      (λ next. fd_passes-PassKeeps pipe_descr read_fs write_fs recv send left (suc i) next)
