-- ===== src/Server/Loop/Examples.antt =====
-- The theorems on the loop of server/src/server.c at concrete rounds.
use iu7_pvs_cp.Base.{
  until_zero, Bool, true, false, subst, List, [], ◌∷◌, map, none, some, ◌≡◌, refl, Bytes, codes,
  arith, ◌==◌, if◌then◌else◌,
}
use iu7_pvs_cp.StringUtils.{strcrlf, strstartswith, strtrim}
use iu7_pvs_cp.Smtp.Session.{initial, Session, smtp_start_session}
use iu7_pvs_cp.Smtp.Commands.{smtp_process_command}
use iu7_pvs_cp.Smtp.Commands.Invariant.{IsValid, parts}
use iu7_pvs_cp.Server.{read_client, command_loop}
use iu7_pvs_cp.Server.Loop.{
  Loop, Input, Result, done, session_key, forget, fd_event, ready, server_loop, server_start,
  server_end,
}
use iu7_pvs_cp.Server.Loop.Open.{
  Holds, IsOpen, stored, none_ne_some, some-injective, server_start-Holds,
}
use iu7_pvs_cp.Server.Loop.Rounds.{Alone, fd_event-Alone}
use iu7_pvs_cp.Server.Loop.Clients.{HasSession, fd_event-quit}
use iu7_pvs_cp.Server.Loop.Refinement.{dialogue, only, to_wake, server_loop-dialogue}
use iu7_pvs_cp.Server.Loop.FirstClient.{server_start-first_client}
use iu7_pvs_cp.Tree.{black, Nodes, put}
use iu7_pvs_cp.Tree.Dict.{find_tree_node, dict_get}
use iu7_pvs_cp.Tree.Updates.{IsFresh}

key_of_1023 : session_key 1023 ≡ codes "1023"
unfolding session_key
key_of_1023 = refl

-- The node 1 with the key "4" and the session at 7.
abbrev one_node : Nodes
one_node = record {
  key = λ p. codes "4";
  value = λ p. 7;
  parent = λ p. 0;
  left = λ p. 0;
  right = λ p. 0;
  color = λ p. black;
  list = record { next = λ p. 0; prev = λ p. 0 };
}

abbrev fresh : Session
fresh = parts [] 0 initial (record { recipients = []; lines = []; sender = none })

-- The server listens on 3, and 4 is a client.
abbrev one_client : Loop
one_client = record {
  nodes = one_node;
  root = 1;
  objects = put (λ p. none) 7 (some fresh);
  fds = λ fd. if fd == 4 then true else fd == 3;
  nfds = 5;
  sent = [];
}

abbrev reads_quit : Input
reads_quit = record {
  accepted = some 4;
  session = 7;
  node = 2;
  alloc = true;
  received = some (codes "QUIT\r\n");
}

one_client-HasSession : HasSession 2 one_client 4 7 fresh
unfolding session_key find_tree_node
one_client-HasSession = record {
  node = 1;
  found = refl;
  node_set = λ e. omega arith;
  refers = refl;
  session_set = λ e. omega arith;
  object = refl;
}

two-IsFresh : IsFresh 2 1 one_node
two-IsFresh = record {
  not_root = λ e. omega arith;
  not_left = λ p e. omega arith;
  not_right = λ p e. omega arith;
}

one_client-IsOpen : IsOpen 3 one_client
one_client-IsOpen = record {
  sessions =
      stored (λ p. none) 7 (some fresh) (λ p s e. absurd (none_ne_some e))
        (λ s e. subst IsValid (some-injective e) fresh-IsValid);
  listening = refl;
  below = λ fd e. ground arith;
  bounded = omega arith;
}
  where
    fresh-IsValid : IsValid fresh
    fresh-IsValid = record { envelope_ok = (refl, refl, refl); counted = refl }

server_start-Holds_example :
    (r : Result) × (server_start 2 one_node true
        (some 3)
        true
        (ready (only 3) (λ fd. reads_quit) ∷ [])
      ≡ some r)
    × Holds (IsOpen 3) r
server_start-Holds_example =
    server_start-Holds 2 one_node 3 (ready (only 3) (λ fd. reads_quit) ∷ [])

fd_event-Alone_example : Holds (Alone one_client 4 7) (fd_event 2 3 one_client 4 reads_quit)
unfolding session_key dict_get find_tree_node
fd_event-Alone_example = fd_event-Alone 2 3 one_client 4 7 reads_quit (λ e. omega arith) refl

fd_event-quit_example :
    (after : Loop) × (fd_event 2 3 one_client 4 reads_quit ≡ done after)
    × (after.objects 7 ≡ none)
    × (after.fds 4 ≡ false)
    × (after.sent ≡ (4, codes "221 OK\r\n") ∷ [])
    × ((next : Input) → fd_event 2 3 after 4 next ≡ done (forget after 4))
fd_event-quit_example =
    fd_event-quit 2 3 one_client 4 7 initial _ reads_quit (λ e. omega arith) one_client-HasSession
      (λ e. cc e) refl refl (λ e. omega arith) two-IsFresh

-- One read without a line end, one with.
abbrev two_reads : List (Bool × Bytes)
two_reads = (true, codes "RS") ∷ (true, codes "ET\r\n") ∷ []

two_replies : dialogue two_reads fresh ≡ some (fresh, codes "250 OK\r\n" ∷ [])
unfolding dialogue until_zero read_client command_loop strcrlf smtp_process_command strstartswith
    strtrim
two_replies = refl

server_loop-dialogue_example :
    (after : Loop) × (server_loop 2 3 (map (to_wake 4) two_reads) one_client ≡ done after)
    × HasSession 2 after 4 7 fresh
    × (after.sent ≡ (4, codes "250 OK\r\n") ∷ [])
    × (after.nodes ≡ one_node)
    × (after.root ≡ 1)
server_loop-dialogue_example =
    server_loop-dialogue 2 3 4 7 two_reads one_client fresh fresh (codes "250 OK\r\n" ∷ [])
      (λ e. omega arith) one_client-IsOpen refl one_client-HasSession two_replies

server_start-first_client_example :
    (after : Loop) × (server_start 2 one_node true
        (some 3)
        true
        (ready (only 3) (λ g. reads_quit) ∷ map (to_wake 4) two_reads)
      ≡ some (done after))
    × HasSession 2 after 4 7 fresh
    × (after.sent ≡ (4, codes "220\r\n") ∷ (4, codes "250 OK\r\n") ∷ [])
    × (final : Loop) × (server_end 2 after ≡ done final)
    × (final.objects 7 ≡ none)
unfolding smtp_start_session
server_start-first_client_example =
    server_start-first_client 1 3 one_node 4 reads_quit two_reads fresh (codes "250 OK\r\n" ∷ [])
      (omega arith) (omega arith) (λ e. omega arith) refl (λ e. omega arith) (λ e. omega arith)
      two_replies
