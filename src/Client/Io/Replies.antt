-- ===== src/Client/Io/Replies.antt =====
-- What one read event of client/src/client.c makes of a reply.
use iu7_pvs_cp.Base.{
  none, inr, NoZero, ==_differs, ℕ, suc, ◌+◌, ◌<◌, true, false, ◌&&◌, [], ◌∷◌, ◌++◌, some, inl, ◌≡◌,
  refl, ap, ◌∙◌, Bytes, length, take, take-length, take-length-append, drop, length-append, arith,
  ◌==◌,
}
use iu7_pvs_cp.SharedStrings.{concat_dynamic_strings}
use iu7_pvs_cp.StringUtils.Crlf.{NoReturn}
use iu7_pvs_cp.Client.Fsm.{FsmEvent, ev_ok, ev_bad}
use iu7_pvs_cp.Client.Connection.{Conn, FdSet}
use iu7_pvs_cp.Client.Handlers.{client_fsm_step}
use iu7_pvs_cp.Client.Messages.{Verdict, bad, more, good}
use iu7_pvs_cp.Client.Messages.Copies.{Copies}
use iu7_pvs_cp.Client.Messages.Parts.{
  cut_part, line_cases, try_parse_message_part-line, try_parse_message_part-stale,
}
use iu7_pvs_cp.Client.Io.{
  recv_bytes, store_received, ReadResult, read_fault, after_step, step_on, after_part, judged,
  nothing_left, on_verdict, on_message, on_part, read_loop, process_conn_read,
}

-- The event of a reply that is complete.
pub data Gives : Verdict → FsmEvent → Type 0 where
  gives_ok : Gives good ev_ok
  gives_bad : Gives bad ev_bad

-- The connection when `line` and its end were used and `rest` was not.
abbrev pub used : Conn → Bytes → Bytes → Conn
used c line rest = record c {
  receive_buf = (cut_part line rest).buf;
  to_receive = length rest;
  received = c.received + (length line + 2);
}

abbrev with_end : Bytes → Bytes → Bytes
with_end line rest = line ++ (b'\r' ∷ b'\n' ∷ rest)

store_received-empty :
    (c : Conn) (bytes : Bytes)
    → c.to_receive ≡ 0
    → store_received c bytes ≡ record c { receive_buf = bytes; to_receive = length bytes }
unfolding store_received concat_dynamic_strings
store_received-empty c bytes h = rw h (
    rw (take-length bytes)
      (ap (λ n. record c { receive_buf = bytes; to_receive = n }) (omega arith)))

process_conn_read-line :
    (fuel : ℕ) (c : Conn) (set : FdSet) (line rest : Bytes)
    → process_conn_read fuel (recv_bytes (with_end line rest)) c set
      ≡ read_loop fuel (store_received c (with_end line rest)) set
unfolding process_conn_read
process_conn_read-line fuel c set [] rest = refl
process_conn_read-line fuel c set (b ∷ bs) rest = refl

on_verdict-Gives :
    (v : Verdict) (ev : FsmEvent) (c : Conn) (set : FdSet) (again : ReadResult)
    → Gives v ev
    → on_verdict v c set again ≡ after_step (client_fsm_step c.state ev c set) true
unfolding on_verdict step_on
on_verdict-Gives _ _ c set again gives_ok = refl
on_verdict-Gives _ _ c set again gives_bad = refl

-- A message holds at least its end, so there is something left.
nothing_left-message :
    (line rest : Bytes) → nothing_left (length rest) (some (line ++ (b'\r' ∷ b'\n' ∷ []))) ≡ false
nothing_left-message line rest =
    positive (length rest) (length (line ++ (b'\r' ∷ b'\n' ∷ [])))
      (omega (arith, length-append line (b'\r' ∷ b'\n' ∷ [])))
  where
    positive : (i n : ℕ) → 0 < n → (i == 0) && (n == 0) ≡ false
    positive i n h = ground arith

on_part-cut :
    (c : Conn) (set : FdSet) (line rest : Bytes) (again : Conn → ReadResult) (ev : FsmEvent)
    → Gives (judged (used c line rest) (line ++ (b'\r' ∷ b'\n' ∷ []))) ev
    → on_part (some (cut_part line rest)) c set again
      ≡ after_step (client_fsm_step c.state ev (used c line rest) set) true
unfolding on_part after_part on_message
on_part-cut c set line rest again ev g =
    rw (nothing_left-message line rest, on_part)
      (on_verdict-Gives (judged (used c line rest) (line ++ (b'\r' ∷ b'\n' ∷ []))) ev
        (used c line rest) set _ g)

-- When nothing is unread and a line arrives, with its end and without zero bytes and carriage
-- returns of its own, that `process_message`, which also reads what lies behind its arrays,
-- finds positive or bad, and what arrived behind the line is no longer than the line with its
-- end or the `memcpy` of the system copies overlapping regions forward, `process_conn_read`
-- makes exactly one step of the state machine, with the event of that reply, and what arrived
-- behind the line stays unread.
pub process_conn_read-reply :
    (fuel : ℕ) (c : Conn) (set : FdSet) (line rest : Bytes) (ev : FsmEvent)
    → c.to_receive ≡ 0
    → NoReturn line
    → NoZero line
    → Copies c.system (length line + 2) (length rest)
    → Gives (judged (used c line rest) (line ++ (b'\r' ∷ b'\n' ∷ []))) ev
    → (process_conn_read (suc fuel) (recv_bytes (line ++ (b'\r' ∷ b'\n' ∷ rest))) c set
        ≡ after_step (client_fsm_step c.state ev (used c line rest) set) true)
      × (take (used c line rest).to_receive (used c line rest).receive_buf ≡ rest)
unfolding read_loop
process_conn_read-reply fuel c set line rest ev h n z copies g = (
  process_conn_read-line (suc fuel) c set line rest
      ∙ ap (λ d. read_loop (suc fuel) d set) (store_received-empty c (with_end line rest) h)
      ∙ ap (λ p. on_part p stored set (λ d. read_loop fuel d set))
          (try_parse_message_part-line c.system (c.system.behind_buffer c.received) line rest n z
            copies)
      ∙ on_part-cut stored set line rest (λ d. read_loop fuel d set) ev g,
  take-length-append rest (drop (length rest) (with_end line rest)),
)
  where
    stored : Conn
    stored = record c { receive_buf = with_end line rest; to_receive = length (with_end line rest) }

on_part-more :
    (c : Conn) (set : FdSet) (line rest : Bytes) (again : Conn → ReadResult)
    → judged (used c line rest) (line ++ (b'\r' ∷ b'\n' ∷ [])) ≡ more
    → on_part (some (cut_part line rest)) c set again ≡ again (used c line rest)
unfolding on_part after_part on_message on_verdict
on_part-more c set line rest again g =
    rw (nothing_left-message line rest, on_part)
      (ap (λ v. on_verdict v (used c line rest) set (again (used c line rest))) g)

-- When nothing is unread and all that arrives is one line that `process_message` finds to be
-- continued, `process_conn_read` runs into a fault: it finds the used line in the buffer once
-- more, and the size of a `memcpy` is negative.
pub process_conn_read-more :
    (fuel : ℕ) (c : Conn) (set : FdSet) (line : Bytes)
    → c.to_receive ≡ 0
    → NoReturn line
    → judged (used c line []) (line ++ (b'\r' ∷ b'\n' ∷ [])) ≡ more
    → process_conn_read (suc (suc fuel)) (recv_bytes (line ++ (b'\r' ∷ b'\n' ∷ []))) c set
      ≡ read_fault
unfolding read_loop on_part on_message
process_conn_read-more fuel c set line h n g =
    process_conn_read-line (suc (suc fuel)) c set line []
    ∙ ap (λ d. read_loop (suc (suc fuel)) d set) (store_received-empty c (with_end line []) h)
    ∙ elim (line_cases c.system line (c.system.behind_buffer c.received) (length (with_end line []))
        n) [
          | inl z ↦ found z
          | inr e ↦ ap (λ p. on_part p stored set (λ d. read_loop (suc fuel) d set)) e ∙ not_found
        ]
  where
    stored : Conn
    stored = record c { receive_buf = with_end line []; to_receive = length (with_end line []) }

    not_found :
        on_part
          (some (record {
            message = none;
            len = 0;
            new_len = length (with_end line []);
            buf = with_end line [];
          }))
          stored
          set
          (λ d. read_loop (suc fuel) d set)
        ≡ read_fault
    not_found =
        rw
          (==_differs (length (with_end line [])) 0
            (λ e. omega (arith, length-append line (b'\r' ∷ b'\n' ∷ []))))
          refl

    found : NoZero line → read_loop (suc (suc fuel)) stored set ≡ read_fault
    found z =
        ap (λ p. on_part p stored set (λ d. read_loop (suc fuel) d set))
          (try_parse_message_part-line c.system (c.system.behind_buffer c.received) line [] n z
            (inl (omega arith)))
        ∙ on_part-more stored set line [] (λ d. read_loop (suc fuel) d set) g
        ∙ ap (λ p. on_part p (used stored line []) set (λ d. read_loop fuel d set))
            (try_parse_message_part-stale c.system
              (c.system.behind_buffer (c.received + (length line + 2))) line [] 0 0 n z
              (omega arith))
