-- ===== src/Server/Loop/Rounds.antt =====
-- Rounds of server/src/server.c in which `pselect` gives one descriptor, and what an event of a
-- client leaves alone.
use iu7_pvs_cp.Base.{
  until_zero, ℕ, zero, suc, ◌+◌, ◌<◌, ◌≤◌, true, false, List, [], ◌++◌, Option, none, some, ◌≡◌,
  ◌≢◌, refl, ap, sym, ◌∙◌, append-nil, Bytes, ◌==◌, ==_differs, ==_iff, ltb, lt→ltb, ltb→lt, arith,
  Bool-cases, inl, inr, FdSet, fd_clr-other,
}
use iu7_pvs_cp.Smtp.Session.{Session}
use iu7_pvs_cp.Server.{Served}
use iu7_pvs_cp.Server.Loop.{
  Loop, Input, Result, done, session_key, forget, for_client, on_quit, on_served, serve,
  on_received, on_lookup, fd_event, then_next, fd_loop,
}
use iu7_pvs_cp.Server.Loop.Open.{Holds, faulted, starved, holds, Holds-if, IsOpen, fd_event-Holds}
use iu7_pvs_cp.Tree.{Fixed}
use iu7_pvs_cp.Tree.Dict.{dict_get}
use iu7_pvs_cp.Tree.Updates.{put-other}

-- Nothing is to be read from here on.
fd_loop-idle :
    (passes fuel server_socket : ℕ) (readfds : FdSet) (inputs : ℕ → Input) (sv : Loop) (fd : ℕ)
    → ((g : ℕ) → fd ≤ g → readfds g ≡ false)
    → sv.nfds < passes + fd
    → fd < passes + fd
    → fd_loop passes fuel server_socket readfds inputs sv fd ≡ done sv
unfolding fd_loop
fd_loop-idle zero fuel server_socket readfds inputs sv fd h l k = absurd (omega arith)
fd_loop-idle (suc passes) fuel server_socket readfds inputs sv fd h l k =
    elim (Bool-cases (ltb fd sv.nfds)) [
      | inl e ↦
          let b = ltb→lt fd sv.nfds e in
          rw (e, fd_loop)
            (rw (h fd (omega arith), fd_loop)
              (fd_loop-idle passes fuel server_socket readfds inputs sv (suc fd)
                (λ g q. h g (omega arith)) (omega arith) (omega arith)))
      | inr e ↦ rw (e, fd_loop) refl
    ]

then_idle :
    (server_socket : ℕ) (r : Result) (next : Loop → Result)
    → Holds (IsOpen server_socket) r
    → ((sv : Loop) → IsOpen server_socket sv → next sv ≡ done sv)
    → then_next r next ≡ r
then_idle server_socket _ next faulted h = refl
then_idle server_socket _ next starved h = refl
then_idle server_socket _ next (holds {sv} v) h = h sv v

fd_loop-event :
    (passes fuel server_socket : ℕ) (readfds : FdSet) (inputs : ℕ → Input) (sv : Loop) (fd : ℕ)
    → readfds fd ≡ true
    → fd < sv.nfds
    → fd_loop (suc passes) fuel server_socket readfds inputs sv fd
      ≡ then_next
          (fd_event fuel server_socket sv fd (inputs fd))
          (λ next. fd_loop passes fuel server_socket readfds inputs next (suc fd))
unfolding fd_loop
fd_loop-event passes fuel server_socket readfds inputs sv fd e l =
    rw (e, fd_loop) (rw (lt→ltb fd sv.nfds l, fd_loop) refl)

fd_loop-skip :
    (passes fuel server_socket : ℕ) (readfds : FdSet) (inputs : ℕ → Input) (sv : Loop) (fd : ℕ)
    → readfds fd ≡ false
    → fd < sv.nfds
    → fd_loop (suc passes) fuel server_socket readfds inputs sv fd
      ≡ fd_loop passes fuel server_socket readfds inputs sv (suc fd)
unfolding fd_loop
fd_loop-skip passes fuel server_socket readfds inputs sv fd e l =
    rw (e, fd_loop) (rw (lt→ltb fd sv.nfds l, fd_loop) refl)

fd_loop-reaches :
    (passes fuel server_socket : ℕ) (readfds : FdSet) (inputs : ℕ → Input) (sv : Loop) (i fd : ℕ)
    → IsOpen server_socket sv
    → readfds fd ≡ true
    → ((g : ℕ) → g ≢ fd → readfds g ≡ false)
    → fd < sv.nfds
    → i ≤ fd
    → 1024 < passes + i
    → fd_loop passes fuel server_socket readfds inputs sv i
      ≡ fd_event fuel server_socket sv fd (inputs fd)
fd_loop-reaches zero fuel server_socket readfds inputs sv i fd v e h l q k =
    let w = v.bounded in absurd (omega arith)
fd_loop-reaches (suc passes) fuel server_socket readfds inputs sv i fd v e h l q k =
    let w = v.bounded in
    elim (Bool-cases (i == fd)) [
      | inl b ↦
          ap (fd_loop (suc passes) fuel server_socket readfds inputs sv) ((==_iff i fd).0 b)
          ∙ fd_loop-event passes fuel server_socket readfds inputs sv fd e l
          ∙ then_idle server_socket (fd_event fuel server_socket sv fd (inputs fd)) _
              (fd_event-Holds server_socket fuel sv fd (inputs fd) v)
              (λ next o.
                let b = o.bounded in
                fd_loop-idle passes fuel server_socket readfds inputs next (suc fd)
                  (λ g m. h g (λ c. omega arith)) (omega arith) (omega arith))
      | inr b ↦
          let n : i ≢ fd = λ c. cc (b, (==_iff i fd).1 c) in
          fd_loop-skip passes fuel server_socket readfds inputs sv i (h i n) (omega arith)
          ∙ fd_loop-reaches passes fuel server_socket readfds inputs sv (suc i) fd v e h l
              (omega arith) (omega arith)
    ]

-- In a round in which one descriptor can be read, the pass over all of them is the event of that
-- one.
pub fd_loop-one :
    (fuel server_socket : ℕ) (readfds : FdSet) (inputs : ℕ → Input) (sv : Loop) (fd : ℕ)
    → IsOpen server_socket sv
    → readfds fd ≡ true
    → ((g : ℕ) → g ≢ fd → readfds g ≡ false)
    → fd < sv.nfds
    → fd_loop 1025 fuel server_socket readfds inputs sv 0
      ≡ fd_event fuel server_socket sv fd (inputs fd)
fd_loop-one fuel server_socket readfds inputs sv fd v e h l =
    fd_loop-reaches 1025 fuel server_socket readfds inputs sv 0 fd v e h l (omega arith)
      (omega arith)

-- All but one client's descriptor, its session and what it is sent is as before.
pub record Alone (before : Loop) (fd session : ℕ) (after : Loop) : Type 0 where
  pub others : (q : ℕ) → q ≢ session → after.objects q ≡ before.objects q
  pub sockets : (g : ℕ) → g ≢ fd → after.fds g ≡ before.fds g
  pub size : after.nfds ≡ before.nfds
  pub replies : (rs : List Bytes) × (after.sent ≡ before.sent ++ for_client fd rs)

forget-Alone : (sv : Loop) (fd session : ℕ) → Alone sv fd session (forget sv fd)
forget-Alone sv fd session = record {
  others = λ q n. refl;
  sockets = fd_clr-other fd sv.fds;
  size = refl;
  replies = ([], sym (append-nil sv.sent));
}

on_quit-Alone :
    (sv : Loop) (fd session : ℕ) (rs : List Bytes) (o : Option Fixed)
    → Holds
        (Alone sv fd session)
        (on_quit (forget (record sv { sent = sv.sent ++ for_client fd rs }) fd) session o)
unfolding on_quit
on_quit-Alone sv fd session rs none = holds (record {
  others = put-other sv.objects session none;
  sockets = fd_clr-other fd sv.fds;
  size = refl;
  replies = (rs, refl);
})
on_quit-Alone sv fd session rs (some Fixed.fault) = faulted
on_quit-Alone sv fd session rs (some Fixed.out_of_fuel) = starved
on_quit-Alone sv fd session rs (some (Fixed.fixed nodes root)) = holds (record {
  others = put-other sv.objects session none;
  sockets = fd_clr-other fd sv.fds;
  size = refl;
  replies = (rs, refl);
})

on_served-Alone :
    (fuel : ℕ) (sv : Loop) (node fd session : ℕ) (r : Served)
    → Holds (Alone sv fd session) (on_served fuel sv node fd session r)
unfolding on_served
on_served-Alone fuel sv node fd session Served.fault = faulted
on_served-Alone fuel sv node fd session Served.out_of_fuel = starved
on_served-Alone fuel sv node fd session (Served.served p) =
    Holds-if p.freed (λ e. on_quit-Alone sv fd session p.sent _)
      (λ e. holds (record {
        others = put-other sv.objects session (some p.session);
        sockets = λ g n. refl;
        size = refl;
        replies = (p.sent, refl);
      }))

on_received-Alone :
    (fuel : ℕ) (sv : Loop) (inp : Input) (fd session : ℕ) (r : Option Bytes)
    → Holds (Alone sv fd session) (on_received fuel sv inp fd session r)
unfolding on_received
on_received-Alone fuel sv inp fd session none = holds (forget-Alone sv fd session)
on_received-Alone fuel sv inp fd session (some bytes) = of_object (sv.objects session)
  where
    of_object :
        (o : Option Session)
        → Holds (Alone sv fd session) (serve fuel sv inp fd session o (until_zero bytes))
    of_object none = faulted
    of_object (some s) = on_served-Alone fuel sv inp.node fd session _

-- An event of a client that the dictionary leads to a session leaves all other sessions and
-- descriptors as they were, and sends to that client only, unless it ends in a fault or out of
-- fuel.
pub fd_event-Alone :
    (fuel server_socket : ℕ) (sv : Loop) (fd session : ℕ) (inp : Input)
    → fd ≢ server_socket
    → dict_get fuel sv.nodes sv.root (session_key fd) ≡ some (some session)
    → Holds (Alone sv fd session) (fd_event fuel server_socket sv fd inp)
unfolding fd_event on_lookup
fd_event-Alone fuel server_socket sv fd session inp n e = rw (==_differs fd server_socket n) (
    rw e (
      Holds-if (session == 0) (λ z. holds (forget-Alone sv fd session))
        (λ z. on_received-Alone fuel sv inp fd session inp.received)))
