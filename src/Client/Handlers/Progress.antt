-- ===== src/Client/Handlers/Progress.antt =====
-- Every connection of client/src/client-fsm.c comes to an end.
use iu7_pvs_cp.Base.{
  ◌++◌, ℕ, ◌-◌, codes, ◌≤◌, suc, true, List, [], ◌∷◌, Option, none, some, ◌≡◌, ◌⊎◌, inl, inr, refl,
  sym, subst, length, arith,
}
use iu7_pvs_cp.Client.Fsm.{
  FsmState, init, initialized, s_ehlo, s_mf, s_rt, s_data, s_mail, s_quit, finish, s_error, invalid,
  done, FsmEvent, ev_connected, ev_ok, ev_bad, ev_connection_lost, ev_error, ev_invalid, FsmTrans,
  tr_connect, tr_data, tr_ehlo, tr_error, tr_finish, tr_invalid, tr_mf, tr_quit, tr_rt, is_terminal,
  FsmTransition, select_transition,
}
use iu7_pvs_cp.Client.Connection.{Conn, FdSet}
use iu7_pvs_cp.Client.Handlers.{
  Handled, handle_error, enqueue, grow, nothing, stepped_or_fault, StepResult, exited, fault,
  stepped, client_fsm_step, on_selected, handle_data, run_transition, concat_mail_text, MailText,
  out_of_range, null, text,
}
use iu7_pvs_cp.Client.Handlers.Dialogue.{run_events}

-- How many steps at most a state is away from a terminal one; DONE is never entered.
abbrev remaining : FsmState → ℕ
remaining init = 7
remaining initialized = 6
remaining s_ehlo = 5
remaining s_mf = 4
remaining s_rt = 3
remaining s_data = 2
remaining s_quit = 1
remaining s_mail = 1
remaining done = 8
remaining _ = 0

-- The state that a result leaves, if it leaves one.
abbrev LeavesState : (FsmState → Type 0) → StepResult → Type 0
LeavesState P (stepped h) = P h.conn.state
LeavesState P _ = Unit {0}

abbrev DataLeaves : (FsmState → Type 0) → Option Handled → Type 0
DataLeaves P none = Unit {0}
DataLeaves P (some h) = P h.conn.state

handle_data-DataLeaves :
    (P : FsmState → Type 0) (next : FsmState) (c : Conn) (set : FdSet)
    → P next
    → P s_error
    → DataLeaves P (handle_data next c set)
unfolding handle_data
handle_data-DataLeaves P next c set p q = go (concat_mail_text c.mail.mail_text c.mail.text_len)
  where
    go :
        (t : MailText)
        → DataLeaves P (elim t [
          | out_of_range ↦ none
          | null ↦ some (handle_error s_error (record c { state = next }) set)
          | text t ↦
              let string = t ++ c.system.behind_text in
              some (
                enqueue next c set
                  (grow (grow nothing string (length string)) (codes "\r\n.\r\n") 5))
        ])
    go out_of_range = tt
    go null = q
    go (text t) = p

-- A transition ends in its next state, or in S_ERROR when the data handler has no text.
run_transition-LeavesState :
    (P : FsmState → Type 0) (tr : FsmTrans) (next : FsmState) (c : Conn) (set : FdSet)
    → P next
    → P s_error
    → LeavesState P (run_transition tr next c set)
unfolding run_transition
run_transition-LeavesState P tr_data next c set p q =
    of_data (handle_data next c set) (handle_data-DataLeaves P next c set p q)
  where
    of_data : (o : Option Handled) → DataLeaves P o → LeavesState P (stepped_or_fault o)
    of_data none d = tt
    of_data (some h) d = d
run_transition-LeavesState P tr_invalid next c set p q = tt
run_transition-LeavesState P tr_connect next c set p q = p
run_transition-LeavesState P tr_ehlo next c set p q = p
run_transition-LeavesState P tr_error next c set p q = p
run_transition-LeavesState P tr_finish next c set p q = p
run_transition-LeavesState P tr_mf next c set p q = p
run_transition-LeavesState P tr_quit next c set p q = p
run_transition-LeavesState P tr_rt next c set p q = p

-- Nearer to the end: one step less, or none left.
abbrev Nearer : FsmState → FsmState → Type 0
Nearer st next = remaining next ≤ remaining st - 1

abbrev SelectsNearer : FsmState → Option FsmTransition → Type 0
SelectsNearer st none = Nearer st st
SelectsNearer st (some t) = (t.transition ≡ tr_invalid) ⊎ Nearer st t.next_state

select_transition-SelectsNearer :
    (st : FsmState) (ev : FsmEvent) → remaining st ≤ 7 → SelectsNearer st (select_transition st ev)
unfolding select_transition
select_transition-SelectsNearer init ev_connected h = ground arith
select_transition-SelectsNearer _ ev_connected h = ground arith
select_transition-SelectsNearer init ev_ok h = ground arith
select_transition-SelectsNearer _ ev_ok h = ground arith
select_transition-SelectsNearer init ev_bad h = ground arith
select_transition-SelectsNearer _ ev_bad h = ground arith
select_transition-SelectsNearer init ev_connection_lost h = ground arith
select_transition-SelectsNearer _ ev_connection_lost h = ground arith
select_transition-SelectsNearer init ev_error h = ground arith
select_transition-SelectsNearer _ ev_error h = ground arith
select_transition-SelectsNearer init ev_invalid h = ground arith
select_transition-SelectsNearer _ ev_invalid h = ground arith

-- Every step from a state of the dialogue comes nearer to a terminal state.
client_fsm_step-Nearer :
    (st : FsmState) (ev : FsmEvent) (c : Conn) (set : FdSet)
    → c.state ≡ st
    → remaining st ≤ 7
    → LeavesState (Nearer st) (client_fsm_step st ev c set)
unfolding client_fsm_step
client_fsm_step-Nearer st ev c set e r =
    of_table (select_transition st ev) (select_transition-SelectsNearer st ev r)
  where
    of_table :
        (o : Option FsmTransition)
        → SelectsNearer st o
        → LeavesState (Nearer st) (on_selected o c set)
    of_table none k = subst (Nearer st) (sym e) k
    of_table (some t) (inl k) = rw k tt
    of_table (some t) (inr k) = run_transition-LeavesState (Nearer st) _ _ c set k (omega arith)

remaining_terminal : (st : FsmState) → remaining st ≤ 0 → is_terminal st ≡ true
remaining_terminal finish h = refl
remaining_terminal s_error h = refl
remaining_terminal invalid h = refl
remaining_terminal _ h = absurd (omega arith)

run_events-remaining :
    (evs : List FsmEvent) (c : Conn) (set : FdSet) (n : ℕ)
    → remaining c.state ≤ n
    → n ≤ 7
    → LeavesState (λ st. remaining st ≤ n - length evs) (run_events evs c set)
unfolding run_events
run_events-remaining [] c set n h k = omega arith
run_events-remaining (ev ∷ evs) c set n h k =
    go (run_events-remaining evs) (client_fsm_step c.state ev c set)
      (client_fsm_step-Nearer c.state ev c set refl (omega arith))
  where
    go :
        ((d : Conn) (fs : FdSet) (m : ℕ)
          → remaining d.state ≤ m
          → m ≤ 7
          → LeavesState (λ st. remaining st ≤ m - length evs) (run_events evs d fs))
        → (r : StepResult) → LeavesState (Nearer c.state) r
        → LeavesState
            (λ st. remaining st ≤ n - suc (length evs))
            (elim r [
              | exited ↦ exited
              | fault ↦ fault
              | stepped h ↦ run_events evs h.conn h.write_fs
            ])
    go later exited l = tt
    go later fault l = tt
    go later (stepped s) l =
        let e : n - 1 - length evs ≡ n - suc (length evs) = omega arith in
        subst (λ m. LeavesState (λ st. remaining st ≤ m) (run_events evs s.conn s.write_fs)) e
          (later s.conn s.write_fs (n - 1) (omega arith) (omega arith))

reached :
    (evs : List FsmEvent) (r : StepResult) {h : Handled}
    → 7 ≤ length evs
    → LeavesState (λ st. remaining st ≤ 7 - length evs) r
    → r ≡ stepped h
    → is_terminal h.conn.state ≡ true
reached evs exited {h} k l e = absurd (cc)
reached evs fault {h} k l e = absurd (cc)
reached evs (stepped s) {h} k l e =
    let e' : s ≡ h = cc in
    subst (λ g. is_terminal g.conn.state ≡ true) e' (remaining_terminal s.conn.state (omega arith))

-- A connection that starts in INIT is in a terminal state after seven events or more, whatever
-- the events, if the machine has not called exit() or run into a fault on the way.
pub run_events-is_terminal :
    (evs : List FsmEvent) (c : Conn) (set : FdSet) {h : Handled}
    → c.state ≡ init
    → 7 ≤ length evs
    → run_events evs c set ≡ stepped h
    → is_terminal h.conn.state ≡ true
run_events-is_terminal evs c set e k r =
    reached evs (run_events evs c set) k
      (run_events-remaining evs c set 7 (rw e (omega arith)) (omega arith)) r
