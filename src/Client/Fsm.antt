-- ===== src/Client/Fsm.antt =====
-- The tables of client/src/client-fsm.c and client/include/client-fsm.h.
pub mod Definition
use iu7_pvs_cp.Base.{Bool, true, false, Option, none, some}

-- te_client_fsm_state
pub data FsmState : Type 0 where
  init initialized s_ehlo s_mf s_rt s_data s_mail s_quit finish s_error invalid done : FsmState

-- te_client_fsm_event
pub data FsmEvent : Type 0 where
  ev_connected ev_ok ev_bad ev_connection_lost ev_error ev_invalid : FsmEvent

-- te_client_fsm_trans
pub data FsmTrans : Type 0 where
  tr_connect tr_data tr_ehlo tr_error tr_finish tr_invalid tr_mf tr_quit tr_rt : FsmTrans

-- An entry of the table.
pub record FsmTransition : Type 0 where
  pub next_state : FsmState
  pub transition : FsmTrans

abbrev pub entry : FsmState → FsmTrans → FsmTransition
entry next_state transition = record { next_state = next_state; transition = transition }

-- A row of the table, indexed by the event; the event behind the last column is excluded by the
-- guard of `client_fsm_step`.
row :
    FsmTransition
    → FsmTransition
    → FsmTransition
    → FsmTransition
    → FsmTransition
    → FsmEvent
    → FsmTransition
row connected ok bad lost error ev_connected = connected
row connected ok bad lost error ev_ok = ok
row connected ok bad lost error ev_bad = bad
row connected ok bad lost error ev_connection_lost = lost
row connected ok bad lost error ev_error = error
row connected ok bad lost error ev_invalid = entry invalid tr_invalid

-- client_fsm_trans_table; `none` is behind its last row.
unfoldable pub client_fsm_trans_table : FsmState → Option (FsmEvent → FsmTransition)
unfolding row
client_fsm_trans_table init = some (
    row (entry invalid tr_invalid) (entry initialized tr_connect) (entry s_error tr_error)
      (entry finish tr_error) (entry s_error tr_error))
client_fsm_trans_table initialized = some (
    row (entry invalid tr_invalid) (entry s_ehlo tr_ehlo) (entry s_error tr_error)
      (entry finish tr_error) (entry s_error tr_error))
client_fsm_trans_table s_ehlo = some (
    row (entry invalid tr_invalid) (entry s_mf tr_mf) (entry s_error tr_error)
      (entry finish tr_error) (entry s_error tr_error))
client_fsm_trans_table s_mf = some (
    row (entry invalid tr_invalid) (entry s_rt tr_rt) (entry s_error tr_error)
      (entry finish tr_error) (entry s_error tr_error))
client_fsm_trans_table s_rt = some (
    row (entry invalid tr_invalid) (entry s_data tr_data) (entry s_error tr_error)
      (entry finish tr_error) (entry s_error tr_error))
client_fsm_trans_table s_data = some (
    row (entry invalid tr_invalid) (entry s_quit tr_quit) (entry s_error tr_error)
      (entry finish tr_error) (entry s_error tr_error))
client_fsm_trans_table s_mail = some (
    row (entry invalid tr_invalid) (entry invalid tr_invalid) (entry invalid tr_invalid)
      (entry invalid tr_invalid) (entry invalid tr_invalid))
client_fsm_trans_table s_quit = some (
    row (entry invalid tr_invalid) (entry finish tr_finish) (entry s_error tr_error)
      (entry finish tr_error) (entry s_error tr_error))
client_fsm_trans_table finish = some (
    row (entry invalid tr_invalid) (entry invalid tr_invalid) (entry invalid tr_invalid)
      (entry finish tr_finish) (entry invalid tr_invalid))
client_fsm_trans_table s_error = some (
    row (entry s_error tr_error) (entry s_error tr_error) (entry s_error tr_error)
      (entry s_error tr_error) (entry s_error tr_error))
client_fsm_trans_table invalid = none
client_fsm_trans_table done = none

-- The event CLIENT_FSM_EV_INVALID is tested before the table is read.
abbrev pub of_row : FsmEvent → (FsmEvent → FsmTransition) → FsmTransition
of_row ev_invalid r = entry invalid tr_invalid
of_row ev r = r ev

-- The two tests before the switch: the entry that is taken; `none` is
-- (unsigned)client_fsm_state >= CLIENT_FSM_ST_INVALID.
unfoldable pub select_transition : FsmState → FsmEvent → Option FsmTransition
unfolding client_fsm_trans_table
select_transition st ev = elim (client_fsm_trans_table st) [
  | none ↦ none
  | some r ↦ some (of_row ev r)
]

-- The states in which `check_connections_for_finish` counts a connection as finished.
abbrev pub is_terminal : FsmState → Bool
is_terminal invalid = true
is_terminal finish = true
is_terminal s_error = true
is_terminal _ = false
