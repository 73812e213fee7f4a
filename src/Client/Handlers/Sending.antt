-- ===== src/Client/Handlers/Sending.antt =====
-- What the handlers of client/src/client_fsm_handlers.c put behind the send buffer.
use native.Mathlib.Omega.{arith}
use iu7_pvs_cp.Base.{
  ℕ, ◌+◌, zero, List, [], ◌∷◌, ◌++◌, some, ◌≡◌, refl, sym, ap, ◌∙◌, Bytes, codes, length,
  length-append, append-nil, append_assoc, take-length, take_all, length-take, ◌<◌,
}
use iu7_pvs_cp.SharedStrings.{Grown, concat_dynamic_strings}
use iu7_pvs_cp.Client.Fsm.{FsmState, FsmTrans, tr_connect, tr_data, tr_ehlo, tr_mf, tr_quit, tr_rt}
use iu7_pvs_cp.Client.Connection.{Conn, FdSet, fd_set, IsValid, pending}
use iu7_pvs_cp.Client.Handlers.{
  Handled, domain, grow, nothing, enqueue, handle_connect, handle_ehlo, handle_quit, handle_mf,
  handle_rt, concat_mail_loop, concat_mail_text, text, handle_data,
}

-- A string with its length.
abbrev whole : Bytes → Grown
whole t = record { str1 = t; len = length t }

grow_lem : (a t : Bytes) (n : ℕ) → n ≡ length t → grow (whole a) t n ≡ whole (a ++ t)
unfolding concat_dynamic_strings
grow_lem a t n e = rw e (rw (take-length a) (rw (take-length t) (rw (length-append a t) refl)))

-- `bytes` are put behind what waits to be sent, the state moves on, and the socket waits for
-- writing. Nothing else changes.
unfoldable pub sent : FsmState → Conn → FdSet → Bytes → Handled
sent next c set bytes = record {
  conn = record c {
    state = next;
    send_buf = pending c ++ bytes;
    to_send = c.to_send + length bytes;
  };
  write_fs = fd_set c.socket set;
  returned = next;
}

length-pending : (c : Conn) → IsValid c → length (pending c) ≡ c.to_send
length-pending c v = let s = v.sending in omega (arith, length-take c.to_send c.send_buf, s)

pub sent-IsValid :
    (next : FsmState) (c : Conn) (set : FdSet) (bytes : Bytes)
    → IsValid c
    → IsValid (sent next c set bytes).conn
unfolding sent
sent-IsValid next c set bytes v = record {
  sending = omega (arith, length-append (pending c) bytes, length-pending c v);
  receiving = v.receiving;
}

-- All of it waits to be sent, then.
pub pending-sent :
    (next : FsmState) (c : Conn) (set : FdSet) (bytes : Bytes)
    → IsValid c
    → pending (sent next c set bytes).conn ≡ pending c ++ bytes
unfolding sent
pending-sent next c set bytes v =
    take_all (c.to_send + length bytes) (pending c ++ bytes)
      (omega (arith, length-append (pending c) bytes, length-pending c v))

enqueue-sent :
    (next : FsmState) (c : Conn) (set : FdSet) (bytes : Bytes)
    → enqueue next c set (whole bytes) ≡ sent next c set bytes
unfolding enqueue concat_dynamic_strings sent
enqueue-sent next c set bytes = rw (take-length bytes) refl

comm-sent :
    (next : FsmState) (c : Conn) (set : FdSet) (bytes : Bytes) {comm : Grown}
    → comm ≡ whole bytes
    → enqueue next c set comm ≡ sent next c set bytes
comm-sent next c set bytes e = ap (enqueue next c set) e ∙ enqueue-sent next c set bytes

-- Three strings, one after the other.
grow_three :
    (a b d : Bytes) (k m n : ℕ)
    → k ≡ length a
    → m ≡ length b
    → n ≡ length d
    → grow (grow (grow nothing a k) b m) d n ≡ whole (a ++ (b ++ d))
grow_three a b d k m n ek em en =
    ap (λ g. grow (grow g b m) d n) (grow_lem [] a k ek)
    ∙ ap (λ g. grow g d n) (grow_lem a b m em)
    ∙ grow_lem (a ++ b) d n en
    ∙ ap whole (append_assoc a b d)

grow_two :
    (a b : Bytes) (k m : ℕ)
    → k ≡ length a
    → m ≡ length b
    → grow (grow nothing a k) b m ≡ whole (a ++ b)
grow_two a b k m ek em = ap (λ g. grow g b m) (grow_lem [] a k ek) ∙ grow_lem a b m em

-- All the text of a mail.
unfoldable pub join : List Bytes → Bytes
join [] = []
join (l ∷ ls) = l ++ join ls

concat_mail_loop-join :
    (ls : List Bytes) (acc : Bytes)
    → concat_mail_loop ls (length ls) (whole acc) ≡ some (whole (acc ++ join ls))
unfolding concat_mail_loop join
concat_mail_loop-join [] acc = ap (λ t. some (whole t)) (sym (append-nil acc))
concat_mail_loop-join (l ∷ ls) acc =
    ap (concat_mail_loop ls (length ls)) (grow_lem acc l (length l) refl)
    ∙ concat_mail_loop-join ls (acc ++ l)
    ∙ ap (λ t. some (whole t)) (append_assoc acc l (join ls))

concat_mail_text-cons :
    (l : Bytes) (ls : List Bytes)
    → concat_mail_text (l ∷ ls) (length (l ∷ ls)) ≡ text (join (l ∷ ls))
unfolding concat_mail_text
concat_mail_text-cons l ls = rw (concat_mail_loop-join (l ∷ ls) [], concat_mail_text) refl

-- With the number of the lines, which is not 0, `concat_mail_text` returns all the lines of the
-- mail in order.
pub concat_mail_text-join :
    (ls : List Bytes) (n : ℕ) → n ≡ length ls → zero < n → concat_mail_text ls n ≡ text (join ls)
concat_mail_text-join [] n e h = absurd (omega arith)
concat_mail_text-join (l ∷ ls) n e h = ap (concat_mail_text (l ∷ ls)) e ∙ concat_mail_text-cons l ls

-- The command that a transition sends.
unfoldable pub command : FsmTrans → Conn → Bytes
command tr_connect c = codes "EHLO " ++ (domain ++ codes "\r\n")
command tr_ehlo c = codes "MAIL FROM:<" ++ (c.sender ++ codes ">\r\n")
command tr_mf c = codes "RCPT TO:<" ++ (c.to ++ codes ">\r\n")
command tr_rt c = codes "DATA\r\n"
command tr_data c = join c.mail.mail_text ++ codes "\r\n.\r\n"
command tr_quit c = codes "QUIT\r\n"
command _ c = []

module _ (next : FsmState) (c : Conn) (set : FdSet) where
  pub handle_connect-sent : handle_connect next c set ≡ sent next c set (command tr_connect c)
  unfolding handle_connect command
  handle_connect-sent =
      comm-sent next c set _
        (grow_three (codes "EHLO ") domain (codes "\r\n") 5 (length domain) 2 refl refl refl)

  pub handle_ehlo-sent : handle_ehlo next c set ≡ sent next c set (command tr_ehlo c)
  unfolding handle_ehlo command
  handle_ehlo-sent = comm-sent next c set _ (
      grow_three (codes "MAIL FROM:<") c.sender (codes ">\r\n") 11 (length c.sender) 3 refl refl
        refl)

  pub handle_mf-sent : handle_mf next c set ≡ sent next c set (command tr_mf c)
  unfolding handle_mf command
  handle_mf-sent =
      comm-sent next c set _
        (grow_three (codes "RCPT TO:<") c.to (codes ">\r\n") 9 (length c.to) 3 refl refl refl)

  pub handle_rt-sent : handle_rt next c set ≡ sent next c set (command tr_rt c)
  unfolding handle_rt command
  handle_rt-sent = comm-sent next c set _ (grow_two (codes "DATA") (codes "\r\n") 4 2 refl refl)

  pub handle_quit-sent : handle_quit next c set ≡ sent next c set (command tr_quit c)
  unfolding handle_quit command
  handle_quit-sent = comm-sent next c set _ (grow_lem [] (codes "QUIT\r\n") 6 refl)

  -- With at least one line of text the data handler sends the text and the end of the message.
  pub handle_data-sent :
      c.mail.text_len ≡ length c.mail.mail_text
      → zero < c.mail.text_len
      → c.system.behind_text ≡ []
      → handle_data next c set ≡ some (sent next c set (command tr_data c))
  unfolding handle_data command
  handle_data-sent e h z =
      let string : join c.mail.mail_text ++ c.system.behind_text ≡ join c.mail.mail_text =
        ap (λ b. join c.mail.mail_text ++ b) z ∙ append-nil (join c.mail.mail_text) in
      rw (concat_mail_text-join c.mail.mail_text c.mail.text_len e h, handle_data)
        (rw string (
          ap some (
            comm-sent next c set _ (
              grow_two (join c.mail.mail_text) (codes "\r\n.\r\n") (length (join c.mail.mail_text))
                5 refl refl))))
