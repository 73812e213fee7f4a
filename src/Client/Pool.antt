-- ===== src/Client/Pool.antt =====
-- The functions of client/src/client.c over all connections of a process.
use iu7_pvs_cp.Base.{
  ℕ, ◌+◌, ◌<◌, Bool, true, false, not, ◌&&◌, List, [], ◌∷◌, Option, none, some, ◌==◌, ==_iff, ltb,
  ◌≡◌, ◌≢◌, sym, ap, ◌∙◌, ◌⊎◌, ◌↔◌, inl, inr, refl, Bool-cases, if◌then◌else◌, All, arith,
  fd_set-kept, fd_set_sound,
}
use iu7_pvs_cp.Client.Fsm.{is_terminal}
use iu7_pvs_cp.Client.Connection.{Mail, Conn, FdSet, fd_set}

-- count_mails_connections: one connection for every receiver of every mail.
unfoldable pub count_mails_connections : List Mail → ℕ
count_mails_connections [] = 0
count_mails_connections (m ∷ ms) = m.tos_count + count_mails_connections ms

-- get_active_connection: `none` is NULL.
unfoldable pub get_active_connection : List Conn → ℕ → Option Conn
get_active_connection [] socket = none
get_active_connection (c ∷ cs) socket =
    let rest = get_active_connection cs socket in if c.socket == socket then some c else rest

-- check_connections_for_finish
check_loop : List Conn → Bool → Bool
check_loop [] finished = finished
check_loop (c ∷ cs) finished = check_loop cs (if not (is_terminal c.state) then false else finished)

unfoldable pub check_connections_for_finish : List Conn → Bool
unfolding check_loop
check_connections_for_finish connections = check_loop connections true

abbrev needs_write : Conn → Bool
needs_write c = ltb 0 c.to_send && not (is_terminal c.state)

-- set_connections_need_write, behind FD_ZERO.
need_write_loop : List Conn → FdSet → FdSet
need_write_loop [] set = set
need_write_loop (c ∷ cs) set =
    need_write_loop cs (if needs_write c then fd_set c.socket set else set)

unfoldable pub set_connections_need_write : List Conn → FdSet
unfolding need_write_loop
set_connections_need_write connections = need_write_loop connections (λ fd. false)

-- Some connection has the socket, bytes to send and a state of the dialogue.
pub data Writes (fd : ℕ) : List Conn → Type 0 where
  here :
      (c : Conn) (cs : List Conn)
      → c.socket ≡ fd
      → 0 < c.to_send
      → is_terminal c.state ≡ false
      → Writes fd (c ∷ cs)
  there : (c : Conn) (cs : List Conn) → Writes fd cs → Writes fd (c ∷ cs)

check_loop-false : (cs : List Conn) → check_loop cs false ≡ false
unfolding check_loop
check_loop-false [] = refl
check_loop-false (c ∷ cs) = elim (Bool-cases (not (is_terminal c.state))) [
  | inl e ↦ rw e (check_loop-false cs)
  | inr e ↦ rw e (check_loop-false cs)
]

check_loop-cons :
    (c : Conn) (cs : List Conn) {b : Bool}
    → is_terminal c.state ≡ b
    → check_loop (c ∷ cs) true ≡ check_loop cs (if not b then false else true)
unfolding check_loop
check_loop-cons c cs e = rw e refl

check_loop-true :
    (cs : List Conn) → (check_loop cs true ≡ true) → All (λ c. is_terminal c.state ≡ true) cs
check_loop-true [] h = tt
check_loop-true (c ∷ cs) h = elim (Bool-cases (is_terminal c.state)) [
  | inl e ↦ (e, check_loop-true cs (sym (check_loop-cons c cs e) ∙ h))
  | inr e ↦ absurd (false_ne_true (sym (check_loop-false cs) ∙ sym (check_loop-cons c cs e) ∙ h))
]
  where
    false_ne_true : false ≢ true
    false_ne_true e = cc

check_loop_complete :
    (cs : List Conn) → All (λ c. is_terminal c.state ≡ true) cs → check_loop cs true ≡ true
unfolding check_loop
check_loop_complete [] h = refl
check_loop_complete (c ∷ cs) h = check_loop-cons c cs h.0 ∙ check_loop_complete cs h.1

-- `check_connections_for_finish` is 1 exactly if every connection is in a terminal state.
pub check_connections_for_finish_iff :
    (connections : List Conn)
    → (check_connections_for_finish connections ≡ true)
      ↔ All (λ c. is_terminal c.state ≡ true) connections
unfolding check_connections_for_finish
check_connections_for_finish_iff cs = (check_loop-true cs, check_loop_complete cs)

need_write_loop_mono :
    (cs : List Conn) (set : FdSet) (fd : ℕ) → set fd ≡ true → need_write_loop cs set fd ≡ true
unfolding need_write_loop
need_write_loop_mono [] set fd h = h
need_write_loop_mono (c ∷ cs) set fd h = elim (Bool-cases (needs_write c)) [
  | inl e ↦ rw e (need_write_loop_mono cs (fd_set c.socket set) fd (fd_set-kept c.socket set fd h))
  | inr e ↦ rw e (need_write_loop_mono cs set fd h)
]

needs_write_iff : (n : ℕ) (b : Bool) → (ltb 0 n && not b ≡ true) ↔ ((0 < n) × (b ≡ false))
needs_write_iff n true = ground arith
needs_write_iff n false = ground arith

need_write_loop-cons :
    (c : Conn) (cs : List Conn) (set : FdSet) {b : Bool}
    → needs_write c ≡ b
    → need_write_loop (c ∷ cs) set ≡ need_write_loop cs (if b then fd_set c.socket set else set)
unfolding need_write_loop
need_write_loop-cons c cs set e = rw e refl

need_write_loop_sound :
    (cs : List Conn) (set : FdSet) (fd : ℕ)
    → need_write_loop cs set fd ≡ true
    → (set fd ≡ true) ⊎ Writes fd cs
unfolding need_write_loop
need_write_loop_sound [] set fd h = inl h
need_write_loop_sound (c ∷ cs) set fd h = elim (Bool-cases (needs_write c)) [
  | inl e ↦ added e (
      need_write_loop_sound cs (fd_set c.socket set) fd
        (sym (ap (λ f. f fd) (need_write_loop-cons c cs set e)) ∙ h))
  | inr e ↦
      later (
        need_write_loop_sound cs set fd
          (sym (ap (λ f. f fd) (need_write_loop-cons c cs set e)) ∙ h))
]
  where
    later : (set fd ≡ true) ⊎ Writes fd cs → (set fd ≡ true) ⊎ Writes fd (c ∷ cs)
    later (inl e) = inl e
    later (inr w) = inr (there c cs w)

    this :
        needs_write c ≡ true
        → (c.socket ≡ fd) ⊎ (set fd ≡ true)
        → (set fd ≡ true) ⊎ Writes fd (c ∷ cs)
    this e (inl s) =
        let k = (needs_write_iff c.to_send (is_terminal c.state)).0 e in inr (here c cs s k.0 k.1)
    this e (inr s) = inl s

    added :
        needs_write c ≡ true
        → (fd_set c.socket set fd ≡ true) ⊎ Writes fd cs
        → (set fd ≡ true) ⊎ Writes fd (c ∷ cs)
    added e (inl s) = this e (fd_set_sound c.socket set fd s)
    added e (inr w) = inr (there c cs w)

need_write_loop_complete :
    (fd : ℕ) (cs : List Conn) (set : FdSet) → Writes fd cs → need_write_loop cs set fd ≡ true
unfolding need_write_loop
need_write_loop_complete fd _ set (here c cs s l t) =
    ap (λ f. f fd)
      (need_write_loop-cons c cs set ((needs_write_iff c.to_send (is_terminal c.state)).1 (l, t)))
    ∙ need_write_loop_mono cs (fd_set c.socket set) fd (rw ((==_iff fd c.socket).1 (sym s)) refl)
need_write_loop_complete fd _ set (there c cs w) =
    need_write_loop_complete fd cs (if needs_write c then fd_set c.socket set else set) w

-- A socket is in the set that `set_connections_need_write` builds exactly if a connection with
-- that socket has bytes to send and is in no terminal state.
pub set_connections_need_write_iff :
    (connections : List Conn) (fd : ℕ)
    → (set_connections_need_write connections fd ≡ true) ↔ Writes fd connections
unfolding set_connections_need_write
set_connections_need_write_iff cs fd = (
  λ h. from_empty (need_write_loop_sound cs (λ fd. false) fd h),
  need_write_loop_complete fd cs (λ fd. false),
)
  where
    from_empty : (false ≡ true) ⊎ Writes fd cs → Writes fd cs
    from_empty (inl e) = absurd (cc)
    from_empty (inr w) = w
