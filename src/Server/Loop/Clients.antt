-- ===== src/Server/Loop/Clients.antt =====
-- A client of server/src/server.c from `accept` to QUIT: its session in the dictionary, its reads
-- one after the other, and the end of its session.
use iu7_pvs_cp.Base.{
  until_zero, ℕ, suc, ◌<◌, true, false, [], ◌∷◌, ◌++◌, none, some, ◌≡◌, ◌≢◌, refl, ap, ◌∙◌, Bytes,
  codes, length, length-take, ==_differs, arith, fd_clr, fd_clr-same,
}
use iu7_pvs_cp.Smtp.Session.{SmtpState, mail_data, Envelope, Session}
use iu7_pvs_cp.Smtp.Commands.Invariant.{parts}
use iu7_pvs_cp.Server.{served, read_client}
use iu7_pvs_cp.Server.Sessions.{quit_progress, read_client_quit}
use iu7_pvs_cp.Server.Loop.{
  Loop, Input, done, print_digits, session_key, on_quit, set_session, forget, on_served,
  on_received, on_lookup, serve, fd_event,
}
use iu7_pvs_cp.Tree.{put, Fixed}
use iu7_pvs_cp.Tree.Dict.{find_tree_node, dict_set, dict_get}
use iu7_pvs_cp.Tree.Updates.{IsFresh, put-same, dict_get-found, dict_set-again, updated}

-- The dictionary leads from the descriptor to a session in memory.
pub record HasSession (fuel : ℕ) (sv : Loop) (fd session : ℕ) (s : Session) : Type 0 where
  pub node : ℕ
  pub found : find_tree_node fuel sv.nodes sv.root (session_key fd) ≡ some node
  pub node_set : node ≢ 0
  pub refers : sv.nodes.value node ≡ session
  pub session_set : session ≢ 0
  pub object : sv.objects session ≡ some s

pub length-session_key : (fd : ℕ) → length (session_key fd) < 128
unfolding session_key
length-session_key fd = omega (arith, length-take 7 (print_digits 10 fd []))

dict_get-session :
    (fuel : ℕ) (sv : Loop) (fd session : ℕ) {s : Session}
    → HasSession fuel sv fd session s
    → dict_get fuel sv.nodes sv.root (session_key fd) ≡ some (some session)
dict_get-session fuel sv fd session k =
    dict_get-found fuel sv.nodes sv.root (session_key fd) k.found k.node_set
    ∙ ap (λ v. some (some v)) k.refers

-- An event of a client that has a session is its read.
pub fd_event-session :
    (fuel server_socket : ℕ) (sv : Loop) (fd session : ℕ) (s : Session) (inp : Input)
    (bytes : Bytes)
    → fd ≢ server_socket
    → HasSession fuel sv fd session s
    → inp.received ≡ some bytes
    → fd_event fuel server_socket sv fd inp
      ≡ on_served fuel sv inp.node fd session
          (read_client (suc (length (until_zero bytes))) inp.alloc s (until_zero bytes))
unfolding fd_event on_lookup on_received
fd_event-session fuel server_socket sv fd session s inp bytes n k r =
    rw (==_differs fd server_socket n) (
      rw (dict_get-session fuel sv fd session k, on_lookup)
        (rw (==_differs session 0 k.session_set) (rw (r, on_received) (rw (k.object, serve) refl))))

-- A descriptor whose key has no value is closed.
fd_event-unknown :
    (fuel server_socket : ℕ) (sv : Loop) (fd : ℕ) (inp : Input)
    → fd ≢ server_socket
    → dict_get fuel sv.nodes sv.root (session_key fd) ≡ some (some 0)
    → fd_event fuel server_socket sv fd inp ≡ done (forget sv fd)
unfolding fd_event on_lookup
fd_event-unknown fuel server_socket sv fd inp n e =
    rw (==_differs fd server_socket n) (rw (e, on_lookup) refl)

-- When a client outside the text of a mail, with nothing kept, sends QUIT alone, while memory
-- lasts, it is sent 221, its descriptor leaves the set, its session is freed, and the dictionary
-- no longer leads to it: whatever arrives on that descriptor next only closes it.
pub fd_event-quit :
    (fuel server_socket : ℕ) (sv : Loop) (fd session : ℕ) (st : SmtpState) (env : Envelope)
    (inp : Input)
    → fd ≢ server_socket
    → HasSession fuel sv fd session (parts [] 0 st env)
    → st ≢ mail_data
    → inp.alloc ≡ true
    → inp.received ≡ some (codes "QUIT\r\n")
    → inp.node ≢ 0
    → IsFresh inp.node sv.root sv.nodes
    → (after : Loop) × (fd_event fuel server_socket sv fd inp ≡ done after)
      × (after.objects session ≡ none)
      × (after.fds fd ≡ false)
      × (after.sent ≡ sv.sent ++ (fd, codes "221 OK\r\n") ∷ [])
      × ((next : Input) → fd_event fuel server_socket after fd next ≡ done (forget after fd))
unfolding on_served on_quit until_zero
fd_event-quit fuel server_socket sv fd session st env inp n k m al r nn f =
    let d =
      dict_set-again fuel inp.node sv.nodes sv.root (session_key fd) 0 k.node f
        (length-session_key fd) k.found k.node_set in
    let after = quit_state in
    (
      after,
      fd_event-session fuel server_socket sv fd session (parts [] 0 st env) inp (codes "QUIT\r\n") n
            k r
          ∙ ap (on_served fuel sv inp.node fd session) quit_read
          ∙ ap (on_quit (forget told fd) session) (stored d.0),
      put-same sv.objects session none,
      fd_clr-same fd sv.fds,
      refl,
      λ next. fd_event-unknown fuel server_socket after fd next n d.1,
    )
  where
    told : Loop
    told = record sv { sent = sv.sent ++ (fd, codes "221 OK\r\n") ∷ [] }

    quit_read :
        read_client 7 inp.alloc (parts [] 0 st env) (codes "QUIT\r\n") ≡ served quit_progress
    quit_read = rw al (read_client_quit 5 st env m)

    stored :
        {r : Fixed}
        → dict_set fuel inp.node sv.nodes sv.root (session_key fd) 0 ≡ r
        → set_session fuel inp.node (forget told fd) fd 0 ≡ some r
    stored e = rw (==_differs inp.node 0 nn) (ap some e)

    quit_state : Loop
    quit_state = record sv {
      nodes = updated sv.nodes inp.node (session_key fd) 0 k.node;
      objects = put sv.objects session none;
      fds = fd_clr fd sv.fds;
      sent = sv.sent ++ (fd, codes "221 OK\r\n") ∷ [];
    }
