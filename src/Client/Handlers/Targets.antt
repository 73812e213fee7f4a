-- ===== src/Client/Handlers/Targets.antt =====
-- The receiver and the socket of a connection, which no handler of
-- client/src/client_fsm_handlers.c changes.
use iu7_pvs_cp.Base.{Option, none, some, inl, inr, ◌⊎◌, ◌≡◌, refl, Bytes, FdSet}
use iu7_pvs_cp.Client.Fsm.{
  FsmState, FsmEvent, FsmTrans, tr_connect, tr_data, tr_ehlo, tr_error, tr_finish, tr_invalid,
  tr_mf, tr_quit, tr_rt, FsmTransition, select_transition,
}
use iu7_pvs_cp.Client.Connection.{Conn}
use iu7_pvs_cp.Client.Handlers.{
  Handled, StepResult, exited, fault, stepped, enqueue, MailText, out_of_range, null, text,
  handle_connect, handle_data, handle_ehlo, handle_error, handle_finish, handle_mf, handle_quit,
  handle_rt, stepped_or_fault, concat_mail_text, run_transition, on_selected, client_fsm_step,
}

pub record SameTarget (c d : Conn) : Type 0 where
  pub receiver : d.to ≡ c.to
  pub socket : d.socket ≡ c.socket

-- A step that is an exit or a fault, or keeps the target.
pub data StepKeeps (c : Conn) : StepResult → Type 0 where
  step_exited : StepKeeps c exited
  step_faulted : StepKeeps c fault
  step_kept : {h : Handled} → SameTarget c h.conn → StepKeeps c (stepped h)

pub same : {c d : Conn} → d.to ≡ c.to → d.socket ≡ c.socket → SameTarget c d
same r s = record { receiver = r; socket = s }

MailText-cases : (t : MailText) → (t ≡ out_of_range) ⊎ ((t ≡ null) ⊎ ((b : Bytes) × (t ≡ text b)))
MailText-cases out_of_range = inl refl
MailText-cases null = inr (inl refl)
MailText-cases (text b) = inr (inr (b, refl))

handle_data-StepKeeps :
    (next : FsmState) (c : Conn) (set : FdSet)
    → StepKeeps c (stepped_or_fault (handle_data next c set))
unfolding handle_data enqueue handle_error
handle_data-StepKeeps next c set =
    elim (MailText-cases (concat_mail_text c.mail.mail_text c.mail.text_len)) [
      | inl e ↦ rw (e, handle_data) step_faulted
      | inr (inl e) ↦ rw (e, handle_data) (step_kept (same refl refl))
      | inr (inr (b, e)) ↦ rw (e, handle_data) (step_kept (same refl refl))
    ]

run_transition-StepKeeps :
    (t : FsmTrans) (next : FsmState) (c : Conn) (set : FdSet)
    → StepKeeps c (run_transition t next c set)
unfolding run_transition handle_connect handle_ehlo handle_error handle_finish handle_mf handle_quit
    handle_rt enqueue
run_transition-StepKeeps tr_connect next c set = step_kept (same refl refl)
run_transition-StepKeeps tr_data next c set = handle_data-StepKeeps next c set
run_transition-StepKeeps tr_ehlo next c set = step_kept (same refl refl)
run_transition-StepKeeps tr_error next c set = step_kept (same refl refl)
run_transition-StepKeeps tr_finish next c set = step_kept (same refl refl)
run_transition-StepKeeps tr_invalid next c set = step_exited
run_transition-StepKeeps tr_mf next c set = step_kept (same refl refl)
run_transition-StepKeeps tr_quit next c set = step_kept (same refl refl)
run_transition-StepKeeps tr_rt next c set = step_kept (same refl refl)

pub client_fsm_step-StepKeeps :
    (st : FsmState) (ev : FsmEvent) (c : Conn) (set : FdSet)
    → StepKeeps c (client_fsm_step st ev c set)
unfolding client_fsm_step
client_fsm_step-StepKeeps st ev c set = of_table (select_transition st ev)
  where
    of_table : (o : Option FsmTransition) → StepKeeps c (on_selected o c set)
    of_table none = step_kept (same refl refl)
    of_table (some t) = run_transition-StepKeeps _ _ c set
