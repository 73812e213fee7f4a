-- ===== src/Server/Loop.antt =====
-- server/src/server.c: the loop of `server_start` over `pselect`, with the sessions in the
-- dictionary of common/src/tree.c.
pub mod Open
pub mod Rounds
pub mod Clients
pub mod Refinement
pub mod FirstClient
mod Examples
use iu7_pvs_cp.Base.{
  until_zero, ℕ, zero, suc, ◌+◌, ◌/◌, ◌%◌, Bool, true, false, not, List, [], ◌∷◌, ◌++◌, Option,
  none, some, Bytes, length, take, ◌==◌, ltb, if◌then◌else◌, FdSet, fd_set, fd_clr, fd_setsize,
}
use iu7_pvs_cp.LinkedList.{list_foreach}
use iu7_pvs_cp.Smtp.Session.{SmtpState, Session, smtp_start_session}
use iu7_pvs_cp.Server.{reply_max_len, Progress, Served, read_client}
use iu7_pvs_cp.Tree.{Nodes, put, Fixed}
use iu7_pvs_cp.Tree.Dict.{dict_set, dict_get}

-- The variables of `server_start`: the dictionary, the memory of the sessions by address, where
-- `none` is memory that is not in use, and what was sent to which descriptor.
pub record Loop : Type 0 where
  pub nodes : Nodes
  pub root : ℕ
  pub objects : ℕ → Option Session
  pub fds : FdSet
  pub nfds : ℕ
  pub sent : List (ℕ × Bytes)

-- What the system does in one pass of the loop over the descriptors: the result of `accept`, the
-- addresses that `malloc` gives for a session and for a node of the dictionary, with 0 for NULL,
-- whether it succeeds for all commands and lines of the read or for none of them, and what `read` gives, where `none` is a result of at most 0.
pub record Input : Type 0 where
  pub accepted : Option ℕ
  pub session : ℕ
  pub node : ℕ
  pub alloc : Bool
  pub received : Option Bytes

pub data Result : Type 0 where
  fault : Result
  out_of_fuel : Result
  out_of_passes : Result
  done : Loop → Result

-- The text of `%d` for an `int` that is not negative.
print_digits : ℕ → ℕ → Bytes → Bytes
print_digits zero n text = text
print_digits (suc fuel) n text =
    let longer = (48 + n % 10) ∷ text in
    let rest = print_digits fuel (n / 10) longer in if n / 10 == 0 then longer else rest

-- snprintf(session_key, SESSION_KEY_MAX_LEN, "%d", fd); an `int` has at most ten digits.
unfoldable pub session_key : ℕ → Bytes
unfolding print_digits
session_key fd = take 7 (print_digits 10 fd [])

-- `dict_set` with what `make_tree_node` got; a result of -1 is `none`.
abbrev pub set_session : ℕ → ℕ → Loop → ℕ → ℕ → Option Fixed
set_session fuel node sv fd value =
    if node == 0 then none else some (dict_set fuel node sv.nodes sv.root (session_key fd) value)

abbrev pub with_dict : Loop → Nodes → ℕ → Loop
with_dict sv nodes root = record sv { nodes = nodes; root = root }

-- The fields that are written behind `malloc`. `addr` is never read.
abbrev pub new_session : Session
new_session = record {
  buffer = [];
  buffer_size = 0;
  state = SmtpState.initial;
  envelope = record { recipients = []; lines = []; sender = none };
}

-- `FD_SET`, `smtp_start_session` and `send`. FD_SET of a descriptor of FD_SETSIZE or more writes
-- behind the set.
unfoldable pub start_client : Loop → ℕ → ℕ → Result
unfolding smtp_start_session
start_client sv client_socket session =
    let started = smtp_start_session new_session reply_max_len in
    let next = record sv {
      objects = put sv.objects session (some started.0);
      fds = fd_set client_socket sv.fds;
      nfds = if ltb sv.nfds (client_socket + 1) then client_socket + 1 else sv.nfds;
      sent = sv.sent ++ (client_socket, started.1) ∷ [];
    } in
    if ltb client_socket fd_setsize then done next else fault

-- Behind `dict_set`; with -1 the session is freed again.
unfoldable pub on_stored : Loop → ℕ → ℕ → Option Fixed → Result
unfolding start_client
on_stored sv client_socket session none = done (record sv { objects = put sv.objects session none })
on_stored sv client_socket session (some Fixed.fault) = fault
on_stored sv client_socket session (some Fixed.out_of_fuel) = out_of_fuel
on_stored sv client_socket session (some (Fixed.fixed nodes root)) =
    start_client (with_dict sv nodes root) client_socket session

-- The fields of a session are written before the test for NULL.
unfoldable pub on_accept : ℕ → Loop → Input → Option ℕ → Result
unfolding on_stored
on_accept fuel sv inp none = done sv
on_accept fuel sv inp (some client_socket) =
    if inp.session == 0
    then fault
    else on_stored sv client_socket inp.session
        (set_session fuel inp.node sv client_socket inp.session)

-- `close(fd)` and FD_CLR.
abbrev pub forget : Loop → ℕ → Loop
forget sv fd = record sv { fds = fd_clr fd sv.fds }

abbrev pub for_client : ℕ → List Bytes → List (ℕ × Bytes)
for_client fd [] = []
for_client fd (r ∷ rs) = (fd, r) ∷ for_client fd rs

-- `free(session)` and `dict_set(&sessions, session_key, NULL)`, whose result is not read.
unfoldable pub on_quit : Loop → ℕ → Option Fixed → Result
on_quit sv session none = done (record sv { objects = put sv.objects session none })
on_quit sv session (some Fixed.fault) = fault
on_quit sv session (some Fixed.out_of_fuel) = out_of_fuel
on_quit sv session (some (Fixed.fixed nodes root)) =
    done (record (with_dict sv nodes root) { objects = put sv.objects session none })

-- Behind the loop over the commands of a read.
unfoldable pub on_served : ℕ → Loop → ℕ → ℕ → ℕ → Served → Result
unfolding on_quit
on_served fuel sv node fd session Served.fault = fault
on_served fuel sv node fd session Served.out_of_fuel = out_of_fuel
on_served fuel sv node fd session (Served.served p) =
    let told = record sv { sent = sv.sent ++ for_client fd p.sent } in
    if p.freed
    then on_quit (forget told fd) session (set_session fuel node (forget told fd) fd 0)
    else done (record told { objects = put sv.objects session (some p.session) })

-- A session that was freed is not to be read. Every byte takes at most one pass of the loop over
-- the commands, and one more is for its end.
abbrev pub serve : ℕ → Loop → Input → ℕ → ℕ → Option Session → Bytes → Result
serve fuel sv inp fd session none buf = fault
serve fuel sv inp fd session (some s) buf =
    on_served fuel sv inp.node fd session (read_client (suc (length buf)) inp.alloc s buf)

unfoldable pub on_received : ℕ → Loop → Input → ℕ → ℕ → Option Bytes → Result
unfolding on_served
on_received fuel sv inp fd session none = done (forget sv fd)
on_received fuel sv inp fd session (some bytes) =
    serve fuel sv inp fd session (sv.objects session) (until_zero bytes)

-- What `dict_get` gave.
unfoldable pub on_lookup : ℕ → Loop → Input → ℕ → Option (Option ℕ) → Result
unfolding on_received
on_lookup fuel sv inp fd none = out_of_fuel
on_lookup fuel sv inp fd (some none) = done (forget sv fd)
on_lookup fuel sv inp fd (some (some session)) =
    if session == 0 then done (forget sv fd) else on_received fuel sv inp fd session inp.received

-- The two branches of the loop over the descriptors.
unfoldable pub fd_event : ℕ → ℕ → Loop → ℕ → Input → Result
unfolding on_accept on_lookup
fd_event fuel server_socket sv fd inp =
    if fd == server_socket
    then on_accept fuel sv inp inp.accepted
    else on_lookup fuel sv inp fd (dict_get fuel sv.nodes sv.root (session_key fd))

abbrev pub then_next : Result → (Loop → Result) → Result
then_next fault next = fault
then_next out_of_fuel next = out_of_fuel
then_next out_of_passes next = out_of_passes
then_next (done sv) next = next sv

-- for (int fd = 0; fd < nfds; ++fd), where `nfds` can grow. `passes` is fuel of this loop.
unfoldable pub fd_loop : ℕ → ℕ → ℕ → FdSet → (ℕ → Input) → Loop → ℕ → Result
unfolding fd_event
fd_loop zero fuel server_socket readfds inputs sv fd = out_of_passes
fd_loop (suc passes) fuel server_socket readfds inputs sv fd =
    let event = if readfds fd then fd_event fuel server_socket sv fd (inputs fd) else done sv in
    let rest =
      then_next event (λ next. fd_loop passes fuel server_socket readfds inputs next (suc fd)) in
    if ltb fd sv.nfds then rest else done sv

-- What `pselect` gives: -1, or the descriptors that can be read.
pub data Wake : Type 0 where
  failed : Wake
  ready : FdSet → (ℕ → Input) → Wake

-- The rounds until `pselect` fails or the list is at its end, where a signal stops the server.
unfoldable pub server_loop : ℕ → ℕ → List Wake → Loop → Result
unfolding fd_loop
server_loop fuel server_socket [] sv = done sv
server_loop fuel server_socket (failed ∷ wakes) sv = done sv
server_loop fuel server_socket (ready readfds inputs ∷ wakes) sv =
    then_next (fd_loop (suc fd_setsize) fuel server_socket readfds inputs sv 0)
      (λ next. server_loop fuel server_socket wakes next)

-- `open_server_socket`: what `socket` gives, where `none` is -1, and whether `bind` succeeds. The
-- result of `listen` is not read.
unfoldable pub open_server_socket : Option ℕ → Bool → Option ℕ
open_server_socket none bound = none
open_server_socket (some fd) bound = if bound then some fd else none

-- The variables before the loop. `nodes` is memory as `malloc` would give it.
unfoldable pub at_start : ℕ → Nodes → Loop
at_start server_socket nodes = record {
  nodes = nodes;
  root = 0;
  objects = λ p. none;
  fds = fd_set server_socket (λ fd. false);
  nfds = server_socket + 1;
  sent = [];
}

-- `none` is the result -1 of `server_start`. FD_SET has the bound as above.
unfoldable pub server_start : ℕ → Nodes → Bool → Option ℕ → Bool → List Wake → Option Result
unfolding open_server_socket at_start server_loop
server_start fuel nodes logging socket bound wakes = elim (open_server_socket socket bound) [
  | none ↦ none
  | some fd ↦
      if not logging
      then none
      else some (if ltb fd fd_setsize then server_loop fuel fd wakes (at_start fd nodes) else fault)
]

-- `free` of the value of every node; NULL is passed over, and memory that is not in use is a fault.
abbrev free_at : (ℕ → Option Session) → ℕ → Option Session → Option (ℕ → Option Session)
free_at objects p none = none
free_at objects p (some s) = some (put objects p none)

abbrev then_free :
    Option (ℕ → Option Session)
    → ((ℕ → Option Session) → Option (ℕ → Option Session))
    → Option (ℕ → Option Session)
then_free none f = none
then_free (some objects) f = f objects

unfoldable pub free_sessions : (ℕ → ℕ) → List ℕ → (ℕ → Option Session) → Option (ℕ → Option Session)
free_sessions value [] objects = some objects
free_sessions value (n ∷ ns) objects =
    let freed =
      then_free (free_at objects (value n) (objects (value n)))
        (λ rest. free_sessions value ns rest) in
    if value n == 0 then free_sessions value ns objects else freed

-- What is done behind the loop with the nodes that `tree_foreach` visits. `dict_free` drops the
-- nodes.
abbrev pub on_freed : Loop → Option (ℕ → Option Session) → Result
on_freed sv none = fault
on_freed sv (some objects) = done (record sv { objects = objects; root = 0 })

abbrev pub on_visited : Loop → Option (List ℕ) → Result
on_visited sv none = out_of_fuel
on_visited sv (some ns) = on_freed sv (free_sessions sv.nodes.value ns sv.objects)

-- Of an empty dictionary nothing is visited.
unfoldable pub server_end : ℕ → Loop → Result
unfolding free_sessions list_foreach
server_end fuel sv =
    on_visited sv (if sv.root == 0 then some [] else list_foreach fuel sv.nodes.list sv.root)
