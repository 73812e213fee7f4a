-- ===== src/Client/Fsm/Definition.antt =====
-- The table against client/autogen/client.def, from which it is generated.
use mathlib.Core.Logic.{ite}
use iu7_pvs_cp.Base.{Bool, true, false, none, some, if◌then◌else◌, List, [], ◌∷◌, ◌≡◌, refl}
use iu7_pvs_cp.Client.Fsm.{
  FsmState, init, initialized, s_ehlo, s_mf, s_rt, s_data, s_quit, finish, s_error, invalid, done,
  FsmEvent, ev_connected, ev_ok, ev_bad, ev_connection_lost, ev_error, ev_invalid, FsmTrans,
  tr_connect, tr_data, tr_ehlo, tr_error, tr_finish, tr_invalid, tr_mf, tr_quit, tr_rt,
  FsmTransition, entry, select_transition,
}

-- One `{ tst = …; tev = …; next = …; ttype = …; }`.
pub record Rule : Type 0 where
  pub tst : FsmState
  pub tev : FsmEvent
  pub next : FsmState
  pub ttype : FsmTrans

rule : FsmState → FsmEvent → FsmState → FsmTrans → Rule
rule s e n t = record { tst = s; tev = e; next = n; ttype = t }

-- The four rules of a state of the dialogue.
stage : FsmState → FsmState → FsmTrans → List Rule → List Rule
unfolding rule
stage st next ttype rules =
    rule st ev_ok next ttype
    ∷ rule st ev_bad s_error tr_error
    ∷ rule st ev_connection_lost finish tr_error
    ∷ rule st ev_error s_error tr_error
    ∷ rules

-- The rules of client.def, in its order.
pub definition : List Rule
unfolding stage
definition = stage init initialized tr_connect (
    stage initialized s_ehlo tr_ehlo (
      stage s_ehlo s_mf tr_mf (
        stage s_mf s_rt tr_rt (
          stage s_rt s_data tr_data (
            stage s_data s_quit tr_quit (
              stage s_quit finish tr_finish (
                rule finish ev_connection_lost finish tr_finish
                ∷ rule s_error ev_connected s_error tr_error
                ∷ rule s_error ev_ok s_error tr_error
                ∷ rule s_error ev_bad s_error tr_error
                ∷ rule s_error ev_connection_lost s_error tr_error
                ∷ rule s_error ev_error s_error tr_error
                ∷ [])))))))

FsmState-discrete : Discrete FsmState
FsmState-discrete = hlevel

FsmEvent-discrete : Discrete FsmEvent
FsmEvent-discrete = hlevel

-- The first rule for the state and the event; a pair with no rule is an invalid transition.
pub first_rule : FsmState → FsmEvent → List Rule → FsmTransition
unfolding FsmState-discrete FsmEvent-discrete
first_rule st ev [] = entry invalid tr_invalid
first_rule st ev (r ∷ rs) =
    let rest = first_rule st ev rs in
    ite (FsmState-discrete r.tst st) (ite (FsmEvent-discrete r.tev ev) (entry r.next r.ttype) rest)
      rest

-- The states that client.def has: all but the two that are behind them in te_client_fsm_state.
abbrev pub in_table : FsmState → Bool
in_table invalid = false
in_table done = false
in_table _ = true

-- For every state but INVALID and DONE, and every event, the transition that the code selects is
-- the one that client.def writes, and the invalid transition where client.def has no rule; for
-- INVALID and DONE none is selected.
pub select_transition-definition :
    (st : FsmState) (ev : FsmEvent)
    → select_transition st ev ≡ (if in_table st then some (first_rule st ev definition) else none)
unfolding select_transition first_rule definition
select_transition-definition init ev_connected = refl
select_transition-definition _ ev_connected = refl
select_transition-definition init ev_ok = refl
select_transition-definition _ ev_ok = refl
select_transition-definition init ev_bad = refl
select_transition-definition _ ev_bad = refl
select_transition-definition init ev_connection_lost = refl
select_transition-definition _ ev_connection_lost = refl
select_transition-definition init ev_error = refl
select_transition-definition _ ev_error = refl
select_transition-definition init ev_invalid = refl
select_transition-definition _ ev_invalid = refl
