-- ===== src/Server/Loop/Open.antt =====
-- What stays true of the loop of server/src/server.c over `pselect`: the sessions are valid, and
-- the descriptors lie within the sets.
use iu7_pvs_cp.Base.{
  until_zero, ℕ, zero, suc, ◌+◌, ◌<◌, ◌≤◌, Bool, true, false, List, [], ◌∷◌, ◌++◌, Option, none,
  some, ◌≡◌, ◌≢◌, refl, sym, subst, ◌∙◌, Bytes, length, ◌==◌, ==_iff, ==_self, ltb, ltb→lt, ◌⊎◌,
  arith, Bool-cases, inl, inr, if◌then◌else◌, FdSet, fd_setsize, fd_set-kept, fd_set_sound,
  fd_clr-other, fd_clr_sound,
}
use iu7_pvs_cp.Smtp.Session.{Session, smtp_start_session}
use iu7_pvs_cp.Smtp.Commands.Invariant.{IsValid, smtp_session_reset-initial}
use iu7_pvs_cp.Server.{reply_max_len, Served, read_client}
use iu7_pvs_cp.Server.Sessions.{Keeps, command_loop-Keeps}
use iu7_pvs_cp.Server.Loop.{
  Loop, Input, Result, fault, out_of_fuel, done, session_key, set_session, with_dict, new_session,
  start_client, on_stored, on_accept, forget, for_client, on_quit, on_served, serve, on_received,
  on_lookup, fd_event, then_next, fd_loop, Wake, failed, ready, server_loop, at_start,
  open_server_socket, server_start,
}
use iu7_pvs_cp.Tree.{Nodes, put, Fixed}
use iu7_pvs_cp.Tree.Dict.{dict_get}

smtp_start_session-IsValid : (s : Session) (len : ℕ) → IsValid (smtp_start_session s len).0
unfolding smtp_start_session
smtp_start_session-IsValid s len = smtp_session_reset-initial s

-- A fault, a search in the dictionary that does not end, or a state as described; no lack of passes
-- over the descriptors.
pub data Holds (P : Loop → Type 0) : Result → Type 0 where
  faulted : Holds P fault
  starved : Holds P out_of_fuel
  holds : {sv : Loop} → P sv → Holds P (done sv)

-- Every session in memory is valid, the socket of the server is in the set, and the set lies below
-- `nfds`, which FD_SETSIZE bounds.
pub record IsOpen (server_socket : ℕ) (sv : Loop) : Type 0 where
  pub sessions : (p : ℕ) (s : Session) → sv.objects p ≡ some s → IsValid s
  pub listening : sv.fds server_socket ≡ true
  pub below : (fd : ℕ) → sv.fds fd ≡ true → fd < sv.nfds
  pub bounded : sv.nfds ≤ fd_setsize

pub Holds-if :
    {P : Loop → Type 0} (b : Bool) {x y : Result}
    → (b ≡ true → Holds P x)
    → (b ≡ false → Holds P y)
    → Holds P (if b then x else y)
Holds-if true h k = h refl
Holds-if false h k = k refl

-- All sessions in memory stay valid when one is stored or freed.
pub stored :
    (objects : ℕ → Option Session) (p : ℕ) (o : Option Session)
    → ((q : ℕ) (s : Session) → objects q ≡ some s → IsValid s)
    → ((s : Session) → o ≡ some s → IsValid s)
    → (q : ℕ) (s : Session) → put objects p o q ≡ some s
    → IsValid s
stored objects p o h k q s e = elim (Bool-cases (q == p)) [
  | inl b ↦ k s (sym (at_p b) ∙ e)
  | inr b ↦ h q s (sym (elsewhere b) ∙ e)
]
  where
    at_p : (q == p) ≡ true → put objects p o q ≡ o
    at_p b = rw b refl

    elsewhere : (q == p) ≡ false → put objects p o q ≡ objects q
    elsewhere b = rw b refl

pub none_ne_some : {A : Type 0} {x : A} → none ≢ some x
none_ne_some e = cc

freed-sessions :
    (objects : ℕ → Option Session) (p : ℕ)
    → ((q : ℕ) (s : Session) → objects q ≡ some s → IsValid s)
    → (q : ℕ) (s : Session) → put objects p none q ≡ some s
    → IsValid s
freed-sessions objects p h = stored objects p none h (λ s e. absurd (none_ne_some e))

-- What the invariant does not read, and a session that is stored or freed.
write-IsOpen :
    {server_socket : ℕ} {sv : Loop}
    → (nodes : Nodes) (root : ℕ) (sent : List (ℕ × Bytes)) (p : ℕ) (o : Option Session)
    → IsOpen server_socket sv
    → ((s : Session) → o ≡ some s → IsValid s)
    → IsOpen server_socket
        (record sv { nodes = nodes; root = root; sent = sent; objects = put sv.objects p o })
write-IsOpen {sv = sv} nodes root sent p o v h = record {
  sessions = stored sv.objects p o v.sessions h;
  listening = v.listening;
  below = v.below;
  bounded = v.bounded;
}

free-IsOpen :
    {server_socket : ℕ} {sv : Loop}
    → (nodes : Nodes) (root : ℕ) (p : ℕ) → IsOpen server_socket sv
    → IsOpen server_socket
        (record sv { nodes = nodes; root = root; objects = put sv.objects p none })
free-IsOpen {sv = sv} nodes root p v =
    write-IsOpen nodes root sv.sent p none v (λ s e. absurd (none_ne_some e))

forget-IsOpen :
    {server_socket : ℕ} {sv : Loop}
    → (fd : ℕ) → server_socket ≢ fd
    → IsOpen server_socket sv
    → IsOpen server_socket (forget sv fd)
forget-IsOpen {server_socket} {sv} fd n v = record {
  sessions = v.sessions;
  listening = fd_clr-other fd sv.fds server_socket n ∙ v.listening;
  below = λ g e. v.below g (fd_clr_sound fd sv.fds g e);
  bounded = v.bounded;
}

abbrev grown : ℕ → ℕ → ℕ
grown nfds client_socket = if ltb nfds (client_socket + 1) then client_socket + 1 else nfds

grown-bounds :
    (nfds c : ℕ)
    → c < 1024
    → nfds ≤ 1024
    → (nfds ≤ grown nfds c) × (c < grown nfds c) × (grown nfds c ≤ 1024)
grown-bounds nfds c h k = ground arith

pub some-injective : {A : Type 0} {x y : A} → some x ≡ some y → x ≡ y
some-injective e = cc e

start_client-Holds :
    (server_socket : ℕ) (sv : Loop) (client_socket session : ℕ)
    → IsOpen server_socket sv
    → Holds (IsOpen server_socket) (start_client sv client_socket session)
unfolding start_client
start_client-Holds server_socket sv c session v =
    Holds-if (ltb c 1024)
      (λ e.
        let g = grown-bounds sv.nfds c (ltb→lt c 1024 e) v.bounded in
        holds (record {
          sessions =
              stored sv.objects session _ v.sessions
                (λ s k. subst IsValid (some-injective k) started-IsValid);
          listening = fd_set-kept c sv.fds server_socket v.listening;
          below = λ fd k. within fd g (fd_set_sound c sv.fds fd k);
          bounded = g.2;
        }))
      (λ e. faulted)
  where
    started-IsValid : IsValid (smtp_start_session new_session reply_max_len).0
    started-IsValid = smtp_start_session-IsValid new_session reply_max_len

    within :
        (fd : ℕ)
        → (sv.nfds ≤ grown sv.nfds c) × (c < grown sv.nfds c) × (grown sv.nfds c ≤ 1024)
        → (c ≡ fd) ⊎ (sv.fds fd ≡ true)
        → fd < grown sv.nfds c
    within fd g (inl e) = subst (λ d. d < grown sv.nfds c) e g.1
    within fd g (inr e) = let k = v.below fd e in let l = g.0 in omega arith

on_accept-Holds :
    (server_socket fuel : ℕ) (sv : Loop) (inp : Input) (o : Option ℕ)
    → IsOpen server_socket sv
    → Holds (IsOpen server_socket) (on_accept fuel sv inp o)
unfolding on_accept on_stored
on_accept-Holds server_socket fuel sv inp none v = holds v
on_accept-Holds server_socket fuel sv inp (some c) v =
    Holds-if (inp.session == 0) (λ e. faulted)
      (λ e. behind (set_session fuel inp.node sv c inp.session))
  where
    behind : (o : Option Fixed) → Holds (IsOpen server_socket) (on_stored sv c inp.session o)
    behind none = holds (free-IsOpen sv.nodes sv.root inp.session v)
    behind (some Fixed.fault) = faulted
    behind (some Fixed.out_of_fuel) = starved
    behind (some (Fixed.fixed nodes root)) =
        start_client-Holds server_socket (with_dict sv nodes root) c inp.session (record {
          sessions = v.sessions;
          listening = v.listening;
          below = v.below;
          bounded = v.bounded;
        })

on_quit-Holds :
    (server_socket : ℕ) (sv : Loop) (session : ℕ) (o : Option Fixed)
    → IsOpen server_socket sv
    → Holds (IsOpen server_socket) (on_quit sv session o)
unfolding on_quit
on_quit-Holds server_socket sv session none v = holds (free-IsOpen sv.nodes sv.root session v)
on_quit-Holds server_socket sv session (some Fixed.fault) v = faulted
on_quit-Holds server_socket sv session (some Fixed.out_of_fuel) v = starved
on_quit-Holds server_socket sv session (some (Fixed.fixed nodes root)) v =
    holds (free-IsOpen nodes root session v)

on_served-Holds :
    (server_socket fuel : ℕ) (sv : Loop) (node fd session : ℕ) (r : Served)
    → server_socket ≢ fd
    → IsOpen server_socket sv
    → Keeps r
    → Holds (IsOpen server_socket) (on_served fuel sv node fd session r)
unfolding on_served
on_served-Holds server_socket fuel sv node fd session _ n v Keeps.faulty = faulted
on_served-Holds server_socket fuel sv node fd session _ n v Keeps.unfinished = starved
on_served-Holds server_socket fuel sv node fd session _ n v (Keeps.stays {p} k) =
    Holds-if p.freed
      (λ e. on_quit-Holds server_socket _ session _ (
        forget-IsOpen fd n (record {
          sessions = v.sessions;
          listening = v.listening;
          below = v.below;
          bounded = v.bounded;
        })))
      (λ e. holds (
        write-IsOpen sv.nodes sv.root (sv.sent ++ for_client fd p.sent) session (some p.session) v
          (λ s q. subst IsValid (some-injective q) k)))

serve-Holds :
    (server_socket fuel : ℕ) (sv : Loop) (inp : Input) (fd session : ℕ) (o : Option Session)
    (buf : Bytes)
    → server_socket ≢ fd
    → IsOpen server_socket sv
    → sv.objects session ≡ o
    → Holds (IsOpen server_socket) (serve fuel sv inp fd session o buf)
unfolding read_client
serve-Holds server_socket fuel sv inp fd session none buf n v e = faulted
serve-Holds server_socket fuel sv inp fd session (some s) buf n v e =
    on_served-Holds server_socket fuel sv inp.node fd session _ n v
      (command_loop-Keeps (suc (length buf)) inp.alloc _ buf (v.sessions session s e))

on_lookup-Holds :
    (server_socket fuel : ℕ) (sv : Loop) (inp : Input) (fd : ℕ) (o : Option (Option ℕ))
    → server_socket ≢ fd
    → IsOpen server_socket sv
    → Holds (IsOpen server_socket) (on_lookup fuel sv inp fd o)
unfolding on_lookup on_received
on_lookup-Holds server_socket fuel sv inp fd none n v = starved
on_lookup-Holds server_socket fuel sv inp fd (some none) n v = holds (forget-IsOpen fd n v)
on_lookup-Holds server_socket fuel sv inp fd (some (some session)) n v =
    Holds-if (session == 0) (λ e. holds (forget-IsOpen fd n v)) (λ e. behind inp.received)
  where
    behind :
        (r : Option Bytes) → Holds (IsOpen server_socket) (on_received fuel sv inp fd session r)
    behind none = holds (forget-IsOpen fd n v)
    behind (some bytes) =
        serve-Holds server_socket fuel sv inp fd session (sv.objects session) (until_zero bytes) n v
          refl

pub fd_event-Holds :
    (server_socket fuel : ℕ) (sv : Loop) (fd : ℕ) (inp : Input)
    → IsOpen server_socket sv
    → Holds (IsOpen server_socket) (fd_event fuel server_socket sv fd inp)
unfolding fd_event
fd_event-Holds server_socket fuel sv fd inp v =
    Holds-if (fd == server_socket) (λ e. on_accept-Holds server_socket fuel sv inp inp.accepted v)
      (λ e.
        on_lookup-Holds server_socket fuel sv inp fd
          (dict_get fuel sv.nodes sv.root (session_key fd)) (differ e) v)
  where
    differ : (fd == server_socket) ≡ false → server_socket ≢ fd
    differ e q = cc (e, (==_iff fd server_socket).1 (sym q))

then_next-Holds :
    {P Q : Loop → Type 0} (r : Result) (next : Loop → Result)
    → Holds P r
    → ((sv : Loop) → P sv → Holds Q (next sv))
    → Holds Q (then_next r next)
then_next-Holds _ next faulted h = faulted
then_next-Holds _ next starved h = starved
then_next-Holds _ next (holds {sv} p) h = h sv p

-- With `nfds` at most FD_SETSIZE the passes over the descriptors do not run out.
fd_loop-Holds :
    (passes server_socket fuel : ℕ) (readfds : FdSet) (inputs : ℕ → Input) (sv : Loop) (fd : ℕ)
    → IsOpen server_socket sv
    → fd ≤ 1024
    → 1024 < passes + fd
    → Holds (IsOpen server_socket) (fd_loop passes fuel server_socket readfds inputs sv fd)
unfolding fd_loop
fd_loop-Holds zero server_socket fuel readfds inputs sv fd v l g = absurd (omega arith)
fd_loop-Holds (suc passes) server_socket fuel readfds inputs sv fd v l g =
    Holds-if (ltb fd sv.nfds)
      (λ e.
        then_next-Holds _ _
          (Holds-if (readfds fd) (λ r. fd_event-Holds server_socket fuel sv fd (inputs fd) v)
            (λ r. holds v))
          (λ next w.
            let b = v.bounded in
            let k = ltb→lt fd sv.nfds e in
            fd_loop-Holds passes server_socket fuel readfds inputs next (suc fd) w (omega arith)
              (omega arith)))
      (λ e. holds v)

server_loop-Holds :
    (fuel server_socket : ℕ) (wakes : List Wake) (sv : Loop)
    → IsOpen server_socket sv
    → Holds (IsOpen server_socket) (server_loop fuel server_socket wakes sv)
unfolding server_loop
server_loop-Holds fuel server_socket [] sv v = holds v
server_loop-Holds fuel server_socket (failed ∷ wakes) sv v = holds v
server_loop-Holds fuel server_socket (ready readfds inputs ∷ wakes) sv v =
    then_next-Holds _ _
      (fd_loop-Holds 1025 server_socket fuel readfds inputs sv 0 v (omega arith) (omega arith))
      (λ next w. server_loop-Holds fuel server_socket wakes next w)

pub at_start-IsOpen :
    (server_socket : ℕ) (nodes : Nodes)
    → server_socket < 1024
    → IsOpen server_socket (at_start server_socket nodes)
unfolding at_start
at_start-IsOpen server_socket nodes l = record {
  sessions = λ p s e. absurd (none_ne_some e);
  listening = rw (==_self server_socket) refl;
  below = λ fd e. within fd (fd_set_sound server_socket (λ g. false) fd e);
  bounded = omega arith;
}
  where
    within : (fd : ℕ) → (server_socket ≡ fd) ⊎ (false ≡ true) → fd < server_socket + 1
    within fd (inl e) = omega arith
    within fd (inr e) = absurd (cc e)

-- Once the logger and the socket are there, the server runs, and whatever happens in its rounds,
-- unless one ends in a fault or a loop of the dictionary runs out of fuel: every session in
-- memory is valid, the socket of the server is in the set, and every descriptor of the set is
-- below `nfds`, which is at most FD_SETSIZE.
pub server_start-Holds :
    (fuel : ℕ) (nodes : Nodes) (fd : ℕ) (wakes : List Wake)
    → (r : Result) × (server_start fuel nodes true (some fd) true wakes ≡ some r)
      × Holds (IsOpen fd) r
unfolding server_start open_server_socket
server_start-Holds fuel nodes fd wakes = (
  if ltb fd 1024 then server_loop fuel fd wakes (at_start fd nodes) else fault,
  refl,
  Holds-if (ltb fd 1024)
      (λ e.
        server_loop-Holds fuel fd wakes (at_start fd nodes)
          (at_start-IsOpen fd nodes (ltb→lt fd 1024 e)))
      (λ e. faulted),
)
