-- ===== src/Client/Examples.antt =====
-- The theorems on the client at concrete connections.
use iu7_pvs_cp.Base.{
  inl, Bytes, ℕ, Bool, true, false, List, ◌≡◌, ◌≢◌, ◌++◌, [], ◌∷◌, refl, arith, codes, take, Option,
  some,
}
use iu7_pvs_cp.Client.Fsm.{
  init, finish, s_error, FsmEvent, ev_bad, ev_ok, select_transition, is_terminal,
}
use iu7_pvs_cp.Client.Fsm.Definition.{first_rule, definition, select_transition-definition}
use iu7_pvs_cp.Client.Connection.{Mail, Conn, FdSet, IsValid, pending}
use iu7_pvs_cp.Client.Handlers.{Handled, stepped, client_fsm_step}
use iu7_pvs_cp.Client.Handlers.Dialogue.{run_events, dialogue, seven_ok, run_events-seven_ok}
use iu7_pvs_cp.Client.Handlers.Progress.{run_events-is_terminal}
use iu7_pvs_cp.Client.Messages.{process_message}
use iu7_pvs_cp.Client.Messages.Copies.{quiet}
use iu7_pvs_cp.Client.Io.{
  judged, after_step, read_fault, recv_bytes, out_of_fuel, process_conn_read,
}
use iu7_pvs_cp.Client.Io.Replies.{gives_ok, used, process_conn_read-reply, process_conn_read-more}
use iu7_pvs_cp.Client.Io.Reading.{process_conn_read-ne_fuel}
use iu7_pvs_cp.Client.Parser.{
  get_address_from_reciever, cut_host_from_reciever, RecordType, ns_t_mx, ns_t_a, ok,
  cut_addresses_from_mail_format, parse_mail,
}
use iu7_pvs_cp.Client.Parser.OneReceiver.{parse_mail-one}
use iu7_pvs_cp.Client.Parser.Receivers.{Counted, parse_mail-Counted, parse_mail-ne_ok}
use iu7_pvs_cp.Client.Batch.{Covers, batch_files_for_processes, batch_files_for_processes-Covers}

abbrev greeting : Conn
greeting = record {
  mail = record {
    mail_text = codes "Subject: hi\n" ∷ codes "text\n" ∷ [];
    sender = codes "a@b.c";
    recievers = codes "d@e.f" ∷ [];
    hosts = codes "127.0.0.1" ∷ [];
    ports = 25 ∷ [];
    tos_count = 1;
    text_len = 2;
  };
  to = codes "d@e.f";
  sender = codes "a@b.c";
  host = codes "127.0.0.1";
  port = 25;
  state = init;
  socket = 4;
  send_buf = codes "NOOP";
  receive_buf = [];
  sended = 0;
  to_send = 4;
  received = 0;
  to_receive = 0;
  system = quiet;
}

abbrev no_writers : FdSet
no_writers fd = false

greeting-IsValid : IsValid greeting
greeting-IsValid = record { sending = omega arith; receiving = omega arith }

select_transition-definition_example :
    select_transition init ev_ok ≡ some (first_rule init ev_ok definition)
select_transition-definition_example = select_transition-definition init ev_ok

run_events-seven_ok_example :
    (h : Handled) × (run_events seven_ok greeting no_writers ≡ stepped h)
    × (h.conn.state ≡ finish)
    × (pending h.conn ≡ pending greeting ++ dialogue greeting)
    × IsValid h.conn
run_events-seven_ok_example =
    run_events-seven_ok greeting no_writers refl greeting-IsValid
      (record { counted = refl; some_text = omega arith; ended = refl })

abbrev seven_bad : List FsmEvent
seven_bad = ev_bad ∷ ev_bad ∷ ev_bad ∷ ev_bad ∷ ev_bad ∷ ev_bad ∷ ev_bad ∷ []

abbrev failed : Handled
failed = record {
  conn = record greeting { state = s_error };
  write_fs = no_writers;
  returned = s_error;
}

run_bad : run_events seven_bad greeting no_writers ≡ stepped failed
unfolding run_events client_fsm_step
run_bad = refl

run_events-is_terminal_example : is_terminal failed.conn.state ≡ true
run_events-is_terminal_example =
    run_events-is_terminal seven_bad greeting no_writers refl (omega arith) run_bad

process_conn_read-ne_fuel_example :
    process_conn_read 20 (recv_bytes (codes "250 OK\r\n")) greeting no_writers ≢ out_of_fuel
process_conn_read-ne_fuel_example =
    process_conn_read-ne_fuel 20 (recv_bytes (codes "250 OK\r\n")) greeting no_writers (omega arith)

abbrev always : ℕ → Bool
always i = true

batch_files_for_processes-Covers_example : Covers 7 3 0 (batch_files_for_processes 8 always 7 3)
batch_files_for_processes-Covers_example =
    batch_files_for_processes-Covers 8 always 7 3 (λ i. refl) (omega arith) (omega arith)

-- A resolver that knows one host.
abbrev one_host : Bytes → RecordType → Option Bytes
one_host host ns_t_mx = some (codes "c MX 10 mx.c")
one_host host ns_t_a = some (codes "mx.c A 10.0.0.1")

abbrev one_receiver : List Bytes
one_receiver =
    codes "From: <a@b>\n" ∷ codes "To: <d@c>\n" ∷ codes "\n" ∷ codes "hi\n" ∷ codes "bye\n" ∷ []

abbrev parsed_mail : Mail
parsed_mail = record {
  mail_text = codes "hi\n" ∷ codes "bye\n" ∷ [];
  sender = codes "a@b";
  recievers = codes "d@c" ∷ [];
  hosts = codes "10.0.0.1" ∷ [];
  ports = 25 ∷ [];
  tos_count = 1;
  text_len = 2;
}

one_receiver_parsed : parse_mail one_host one_receiver 0 false ≡ ok parsed_mail
unfolding parse_mail
one_receiver_parsed = refl

parse_mail-Counted_example : Counted (parse_mail one_host one_receiver 0 false)
parse_mail-Counted_example = parse_mail-Counted one_host one_receiver 0 false

parse_mail-ne_ok_example :
    parse_mail one_host
      (codes "<a@b>\n"
        ∷ ((codes "<d@c>\n" ∷ codes "<e@c>\n" ∷ []) ++ codes "\n" ∷ (codes "hi\n" ∷ [])))
      0
      false
    ≢ ok parsed_mail
parse_mail-ne_ok_example =
    parse_mail-ne_ok one_host (codes "<a@b>\n") (codes "<d@c>\n" ∷ codes "<e@c>\n" ∷ [])
      (codes "hi\n" ∷ []) 0 false parsed_mail (refl, (refl, tt)) (omega arith) (omega arith)

-- "220" and a reply that follows it at once.
process_conn_read-reply_example :
    (process_conn_read 2
        (recv_bytes (codes "220 " ++ (b'\r' ∷ b'\n' ∷ codes "250")))
        greeting
        no_writers
      ≡ after_step
          (client_fsm_step init ev_ok (used greeting (codes "220 ") (codes "250")) no_writers)
          true)
    × (take
          (used greeting (codes "220 ") (codes "250")).to_receive
          (used greeting (codes "220 ") (codes "250")).receive_buf
        ≡ codes "250")
unfolding judged process_message
process_conn_read-reply_example =
    process_conn_read-reply 1 greeting no_writers (codes "220 ") (codes "250") ev_ok refl
      ((λ e. omega arith), ((λ e. omega arith), ((λ e. omega arith), ((λ e. omega arith), tt))))
      ((λ e. omega arith), ((λ e. omega arith), ((λ e. omega arith), ((λ e. omega arith), tt))))
      (inl (omega arith)) gives_ok

process_conn_read-more_example :
    process_conn_read 2 (recv_bytes (codes "250-" ++ (b'\r' ∷ b'\n' ∷ []))) greeting no_writers
    ≡ read_fault
unfolding judged process_message
process_conn_read-more_example =
    process_conn_read-more 0 greeting no_writers (codes "250-") refl
      ((λ e. omega arith), ((λ e. omega arith), ((λ e. omega arith), ((λ e. omega arith), tt))))
      refl

parse_mail-one_example :
    parse_mail one_host
      (codes "From: <a@b>\n"
        ∷ codes "To: <d@c>\n"
        ∷ codes "\n"
        ∷ (codes "hi\n" ∷ codes "bye\n" ∷ []))
      7
      true
    ≡ ok parsed_mail
unfolding get_address_from_reciever cut_addresses_from_mail_format cut_host_from_reciever
parse_mail-one_example =
    parse_mail-one one_host (codes "From: <a@b>\n") (codes "To: <d@c>\n") (codes "a@b")
      (codes "d@c") (codes "c") (codes "10.0.0.1") (codes "hi\n" ∷ codes "bye\n" ∷ []) 7 25 true
      refl (record { filled = refl; address = refl; host_of = refl; elsewhere = refl }) refl refl
      (omega arith, (omega arith, tt))
