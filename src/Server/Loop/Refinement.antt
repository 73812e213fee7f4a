-- ===== src/Server/Loop/Refinement.antt =====
-- The loop of server/src/server.c as one client sees it: a session that is given its reads.
use iu7_pvs_cp.Base.{
  until_zero, ℕ, suc, Bool, true, false, List, [], ◌∷◌, ◌++◌, map, Option, none, some, ◌≡◌, ◌≢◌,
  refl, ap, sym, subst, ◌∙◌, append_assoc, append-nil, Bytes, length, ◌==◌, ==_differs, ==_self,
  Option-cases, Bool-cases, inl, inr, if◌then◌else◌, FdSet,
}
use iu7_pvs_cp.Smtp.Session.{Session}
use iu7_pvs_cp.Server.{Progress, Served, read_client}
use iu7_pvs_cp.Server.Loop.{
  Loop, Input, done, for_client, on_served, fd_event, then_next, Wake, ready, server_loop,
}
use iu7_pvs_cp.Server.Loop.Open.{Holds, holds, IsOpen, fd_event-Holds}
use iu7_pvs_cp.Server.Loop.Rounds.{fd_loop-one}
use iu7_pvs_cp.Server.Loop.Clients.{HasSession, fd_event-session}
use iu7_pvs_cp.Tree.{put}
use iu7_pvs_cp.Tree.Updates.{put-same}

-- What a session makes of the reads of its client: the session and the replies behind them, and
-- `none` from a fault or QUIT on. A read is whether `malloc` succeeds, and the bytes.
abbrev pub Dialogue : Type 0
Dialogue = Option (Session × List Bytes)

prepend : List Bytes → Dialogue → Dialogue
prepend replies none = none
prepend replies (some d) = some (d.0, replies ++ d.1)

on_answer : Served → (Session → Dialogue) → Dialogue
unfolding prepend
on_answer Served.fault next = none
on_answer Served.out_of_fuel next = none
on_answer (Served.served p) next = if p.freed then none else prepend p.sent (next p.session)

unfoldable pub dialogue : List (Bool × Bytes) → Session → Dialogue
unfolding on_answer
dialogue [] s = some (s, [])
dialogue (r ∷ rs) s =
    on_answer (read_client (suc (length (until_zero r.1))) r.0 s (until_zero r.1))
      (λ t. dialogue rs t)

-- The round of the server in which a read of a client arrives.
abbrev pub only : ℕ → FdSet
only fd g = g == fd

abbrev pub to_wake : ℕ → Bool × Bytes → Wake
to_wake fd r =
    ready (only fd)
      (λ g. record { accepted = none; session = 0; node = 0; alloc = r.0; received = some r.1 })

record Answered (r : Served) (next : Session → Dialogue) (d : Session × List Bytes) : Type 0 where
  progress : Progress
  is_served : r ≡ Served.served progress
  is_kept : progress.freed ≡ false
  rest : List Bytes
  goes_on : next progress.session ≡ some (d.0, rest)
  appended : d.1 ≡ progress.sent ++ rest

prepend-some :
    (p : Progress) (next : Session → Dialogue) (d : Session × List Bytes)
    → p.freed ≡ false
    → prepend p.sent (next p.session) ≡ some d
    → Answered (Served.served p) next d
unfolding prepend
prepend-some p next d f e = elim (Option-cases (next p.session)) [
  | inl k ↦ absurd (none_ne_some (sym (ap (prepend p.sent) k) ∙ e))
  | inr (t, k) ↦
      let q : some (t.0, p.sent ++ t.1) ≡ some d = sym (ap (prepend p.sent) k) ∙ e in
      record {
        progress = p;
        is_served = refl;
        is_kept = f;
        rest = t.1;
        goes_on = k ∙ ap (λ s. some (s, t.1)) (ap (λ x. x.0) (inside q));
        appended = sym (ap (λ x. x.1) (inside q));
      }
]
  where
    none_ne_some : {A : Type 0} {x : A} → none ≢ some x
    none_ne_some q = cc q

    inside : {A : Type 0} {x y : A} → some x ≡ some y → x ≡ y
    inside q = cc q

on_answer-some :
    (r : Served) (next : Session → Dialogue) (d : Session × List Bytes)
    → on_answer r next ≡ some d
    → Answered r next d
unfolding on_answer
on_answer-some Served.fault next d e = absurd (cc e)
on_answer-some Served.out_of_fuel next d e = absurd (cc e)
on_answer-some (Served.served p) next d e = elim (Bool-cases p.freed) [
  | inl f ↦ absurd (none_ne_some (sym (quits f) ∙ e))
  | inr f ↦ prepend-some p next d f (sym (stays f) ∙ e)
]
  where
    none_ne_some : {A : Type 0} {x : A} → none ≢ some x
    none_ne_some q = cc q

    quits : p.freed ≡ true → on_answer (Served.served p) next ≡ none
    quits f = rw f refl

    stays : p.freed ≡ false → on_answer (Served.served p) next ≡ prepend p.sent (next p.session)
    stays f = rw f refl

pub Holds-done : {P : Loop → Type 0} {sv : Loop} → Holds P (done sv) → P sv
Holds-done (holds p) = p

pub for_client-append :
    (fd : ℕ) (a b : List Bytes) → for_client fd (a ++ b) ≡ for_client fd a ++ for_client fd b
for_client-append fd [] b = refl
for_client-append fd (x ∷ a) b = ap (◌∷◌ (fd, x)) (for_client-append fd a b)

-- The state behind a read that did not end the session.
abbrev answered : Loop → ℕ → ℕ → Progress → Loop
answered sv fd session p = record sv {
  sent = sv.sent ++ for_client fd p.sent;
  objects = put sv.objects session (some p.session);
}

round-answered :
    (fuel server_socket : ℕ) (sv : Loop) (fd session : ℕ) (s : Session) (r : Bool × Bytes)
    (wakes : List Wake) (p : Progress)
    → fd ≢ server_socket
    → IsOpen server_socket sv
    → sv.fds fd ≡ true
    → HasSession fuel sv fd session s
    → read_client (suc (length (until_zero r.1))) r.0 s (until_zero r.1) ≡ Served.served p
    → p.freed ≡ false
    → (server_loop fuel server_socket (to_wake fd r ∷ wakes) sv
        ≡ server_loop fuel server_socket wakes (answered sv fd session p))
      × IsOpen server_socket (answered sv fd session p)
unfolding server_loop on_served
round-answered fuel server_socket sv fd session s r wakes p n v on k e f = (
  ap (λ x. then_next x (server_loop fuel server_socket wakes))
      (fd_loop-one fuel server_socket (only fd) inputs sv fd v (==_self fd) (==_differs_from)
          (v.below fd on)
        ∙ event),
  Holds-done (
      subst (Holds (IsOpen server_socket)) event
        (fd_event-Holds server_socket fuel sv fd (inputs fd) v)),
)
  where
    inputs : ℕ → Input
    inputs g = record { accepted = none; session = 0; node = 0; alloc = r.0; received = some r.1 }

    ==_differs_from : (g : ℕ) → g ≢ fd → (g == fd) ≡ false
    ==_differs_from g m = ==_differs g fd m

    event : fd_event fuel server_socket sv fd (inputs fd) ≡ done (answered sv fd session p)
    event =
        fd_event-session fuel server_socket sv fd session s (inputs fd) r.1 n k refl
        ∙ ap (on_served fuel sv 0 fd session) e
        ∙ rw f refl

-- For a server in which what `server_start` keeps true holds, and a client whose descriptor is
-- in the set and leads to a session in memory, other than the socket of the server: when the
-- session alone answers a list of reads without a fault or QUIT, the rounds of the server in
-- which these reads arrive, and nothing on any other descriptor, run without a fault, leave the
-- session that the session alone leaves, and send to the client exactly its replies.
pub server_loop-dialogue :
    (fuel server_socket fd session : ℕ) (reads : List (Bool × Bytes)) (sv : Loop) (s t : Session)
    (replies : List Bytes)
    → fd ≢ server_socket
    → IsOpen server_socket sv
    → sv.fds fd ≡ true
    → HasSession fuel sv fd session s
    → dialogue reads s ≡ some (t, replies)
    → (after : Loop) × (server_loop fuel server_socket (map (to_wake fd) reads) sv ≡ done after)
      × HasSession fuel after fd session t
      × (after.sent ≡ sv.sent ++ for_client fd replies)
      × (after.nodes ≡ sv.nodes)
      × (after.root ≡ sv.root)
unfolding dialogue server_loop
server_loop-dialogue fuel server_socket fd session [] sv s t replies n v on k e =
    let q = inside e in
    (
      sv,
      refl,
      subst (HasSession fuel sv fd session) (ap (λ d. d.0) q) k,
      sym (append-nil sv.sent) ∙ ap (λ d. sv.sent ++ for_client fd d.1) q,
      refl,
      refl,
    )
  where
    inside : {A : Type 0} {x y : A} → some x ≡ some y → x ≡ y
    inside q = cc q
server_loop-dialogue fuel server_socket fd session (r ∷ rs) sv s t replies n v on k e =
    let a = on_answer-some _ (λ u. dialogue rs u) (t, replies) e in
    let p = a.progress in
    let step =
      round-answered fuel server_socket sv fd session s r (map (to_wake fd) rs) p n v on k
        a.is_served a.is_kept in
    let later =
      server_loop-dialogue fuel server_socket fd session rs (answered sv fd session p) p.session t
        a.rest n step.1 on
        (record {
          node = k.node;
          found = k.found;
          node_set = k.node_set;
          refers = k.refers;
          session_set = k.session_set;
          object = put-same sv.objects session (some p.session);
        })
        a.goes_on in
    (
      later.0,
      step.0 ∙ later.1,
      later.2,
      later.3
          ∙ append_assoc sv.sent (for_client fd p.sent) (for_client fd a.rest)
          ∙ ap (λ x. sv.sent ++ x) (sym (for_client-append fd p.sent a.rest))
          ∙ ap (λ x. sv.sent ++ for_client fd x) (sym a.appended),
      later.4,
      later.5,
    )
