-- ===== src/Server/Loop/FirstClient.antt =====
-- The first client of server/src/server.c, from the start of the server on.
use iu7_pvs_cp.Base.{
  ℕ, suc, ◌+◌, ◌<◌, Bool, true, List, [], ◌∷◌, ◌++◌, map, Option, none, some, ◌≡◌, ◌≢◌, refl, ap,
  subst, ◌∙◌, Bytes, codes, ==_differs, ==_self, ltb, lt→ltb, if◌then◌else◌, fd_set,
}
use iu7_pvs_cp.LinkedList.{Links, list_foreach}
use iu7_pvs_cp.Smtp.Session.{Session, smtp_start_session}
use iu7_pvs_cp.Server.{reply_max_len}
use iu7_pvs_cp.Server.Loop.{
  Loop, Input, done, session_key, new_session, start_client, on_stored, on_accept, for_client,
  fd_event, then_next, ready, server_loop, at_start, open_server_socket, server_start, server_end,
  free_sessions,
}
use iu7_pvs_cp.Server.Loop.Open.{Holds, IsOpen, fd_event-Holds, at_start-IsOpen}
use iu7_pvs_cp.Server.Loop.Rounds.{fd_loop-one}
use iu7_pvs_cp.Server.Loop.Clients.{HasSession, length-session_key}
use iu7_pvs_cp.Server.Loop.Refinement.{dialogue, only, to_wake, Holds-done, server_loop-dialogue}
use iu7_pvs_cp.Tree.{Nodes, put}
use iu7_pvs_cp.Tree.First.{first, dict_set-first, find_tree_node-first, value-first, next-first}
use iu7_pvs_cp.Tree.Updates.{put-same}

-- The state behind the first `accept`.
welcomed : ℕ → Nodes → ℕ → Input → Loop
unfolding smtp_start_session
welcomed server_socket nodes client inp =
    let start = at_start server_socket nodes in
    let started = smtp_start_session new_session reply_max_len in
    record start {
      nodes = first nodes inp.node (session_key client) inp.session;
      root = inp.node;
      objects = put start.objects inp.session (some started.0);
      fds = fd_set client start.fds;
      nfds = if ltb start.nfds (client + 1) then client + 1 else start.nfds;
      sent = start.sent ++ (client, started.1) ∷ [];
    }

first_event :
    (fuel server_socket : ℕ) (nodes : Nodes) (client : ℕ) (inp : Input)
    → client < 1024
    → inp.accepted ≡ some client
    → inp.session ≢ 0
    → inp.node ≢ 0
    → fd_event (suc fuel) server_socket (at_start server_socket nodes) server_socket inp
      ≡ done (welcomed server_socket nodes client inp)
unfolding fd_event on_accept on_stored start_client at_start welcomed
first_event fuel server_socket nodes client inp l a s n = rw (==_self server_socket) (
    rw (a, on_accept)
      (rw (==_differs inp.session 0 s) (
        rw (==_differs inp.node 0 n) (
          rw (dict_set-first fuel inp.node nodes (session_key client) inp.session, on_stored)
            (rw (lt→ltb client 1024 l) refl)))))

welcomed-HasSession :
    (fuel server_socket : ℕ) (nodes : Nodes) (client : ℕ) (inp : Input)
    → inp.session ≢ 0
    → inp.node ≢ 0
    → HasSession
        (suc fuel)
        (welcomed server_socket nodes client inp)
        client
        inp.session
        (smtp_start_session new_session reply_max_len).0
unfolding welcomed at_start
welcomed-HasSession fuel server_socket nodes client inp s n = record {
  node = inp.node;
  found =
      find_tree_node-first fuel inp.node nodes (session_key client) inp.session n
        (length-session_key client);
  node_set = n;
  refers = value-first inp.node nodes (session_key client) inp.session;
  session_set = s;
  object = put-same (λ p. none) inp.session (some (smtp_start_session new_session reply_max_len).0);
}

list_foreach_self :
    (fuel : ℕ) (l : Links) (head : ℕ)
    → l.next head ≡ head
    → list_foreach (suc fuel) l head ≡ some (head ∷ [])
unfolding list_foreach
list_foreach_self fuel l head e = rw (e, list_foreach) (rw (==_self head) refl)

free_sessions-one :
    (value : ℕ → ℕ) (n session : ℕ) (objects : ℕ → Option Session) {s : Session}
    → value n ≡ session
    → session ≢ 0
    → objects session ≡ some s
    → free_sessions value (n ∷ []) objects ≡ some (put objects session none)
unfolding free_sessions
free_sessions-one value n session objects v m e =
    rw (v, free_sessions) (rw (==_differs session 0 m) (rw (e, free_sessions) refl))

-- At the end the only session is freed.
server_end-one :
    (fuel server_socket : ℕ) (nodes : Nodes) (client : ℕ) (inp : Input) (sv : Loop) (t : Session)
    → inp.node ≢ 0
    → inp.session ≢ 0
    → HasSession (suc fuel) sv client inp.session t
    → sv.nodes ≡ (welcomed server_socket nodes client inp).nodes
    → sv.root ≡ inp.node
    → (final : Loop) × (server_end (suc fuel) sv ≡ done final) × (final.objects inp.session ≡ none)
unfolding server_end welcomed
server_end-one fuel ss nodes client inp sv t m s k ne re = (
  record sv { objects = put sv.objects inp.session none; root = 0 },
  rw (re, server_end)
      (rw (==_differs inp.node 0 m) (
        rw (list_foreach_self fuel sv.nodes.list inp.node ring) (
          rw (free_sessions-one sv.nodes.value inp.node inp.session sv.objects refers s k.object)
            refl))),
  put-same sv.objects inp.session none,
)
  where
    ring : sv.nodes.list.next inp.node ≡ inp.node
    ring =
        ap (λ h. h.list.next inp.node) ne
        ∙ next-first inp.node nodes (session_key client) inp.session

    refers : sv.nodes.value inp.node ≡ inp.session
    refers =
        ap (λ h. h.value inp.node) ne ∙ value-first inp.node nodes (session_key client) inp.session

-- When the server starts, its socket and the descriptor of the client are below FD_SETSIZE and
-- differ, and `accept` gives the first client with memory for its session and its node, and the
-- session alone answers the reads of that client without a fault or QUIT, the server sends 220
-- and then exactly those replies, and the dictionary leads from the descriptor to that session,
-- which is freed when the server ends then.
pub server_start-first_client :
    (fuel server_socket : ℕ) (nodes : Nodes) (client : ℕ) (inp : Input)
    (reads : List (Bool × Bytes)) (t : Session) (replies : List Bytes)
    → server_socket < 1024
    → client < 1024
    → client ≢ server_socket
    → inp.accepted ≡ some client
    → inp.session ≢ 0
    → inp.node ≢ 0
    → dialogue reads (smtp_start_session new_session reply_max_len).0 ≡ some (t, replies)
    → (after : Loop) × (server_start
          (suc fuel)
          nodes
          true
          (some server_socket)
          true
          (ready (only server_socket) (λ g. inp) ∷ map (to_wake client) reads)
        ≡ some (done after))
      × HasSession (suc fuel) after client inp.session t
      × (after.sent ≡ (client, codes "220\r\n") ∷ for_client client replies)
      × (final : Loop) × (server_end (suc fuel) after ≡ done final)
      × (final.objects inp.session ≡ none)
unfolding server_start open_server_socket server_loop welcomed
server_start-first_client fuel ss nodes client inp reads t replies sl l n a s m e =
    let v = at_start-IsOpen ss nodes sl in
    let event = first_event fuel ss nodes client inp l a s m in
    let open_ = Holds-done (
      subst (Holds (IsOpen ss)) event
        (fd_event-Holds ss (suc fuel) (at_start ss nodes) ss inp v)) in
    let talk =
      server_loop-dialogue (suc fuel) ss client inp.session reads (welcomed ss nodes client inp) _ t
        replies n open_ (rw (==_self client) refl)
        (welcomed-HasSession fuel ss nodes client inp s m) e in
    let stop = server_end-one fuel ss nodes client inp talk.0 t m s talk.2 talk.4 talk.5 in
    (
      talk.0,
      rw (lt→ltb ss 1024 sl) (
          ap (λ r. some (then_next r (server_loop (suc fuel) ss (map (to_wake client) reads))))
            (fd_loop-one (suc fuel) ss (only ss) (λ g. inp) (at_start ss nodes) ss v (==_self ss)
                (λ g q. ==_differs g ss q) (v.below ss v.listening)
              ∙ event)
          ∙ ap some talk.1),
      talk.2,
      talk.3,
      stop.0,
      stop.1,
      stop.2,
    )
