-- ===== src/Exchange/Examples.antt =====
-- The theorem on client and server of this repository at a concrete mail.
use iu7_pvs_cp.Base.{ℕ, true, false, [], ◌∷◌, some, ◌≡◌, refl, codes, arith, FdSet}
use iu7_pvs_cp.Smtp.Regex.Address.{single, atom, IsMail}
use iu7_pvs_cp.Smtp.Regex.{is_atom_char}
use iu7_pvs_cp.Smtp.Session.{initial}
use iu7_pvs_cp.Smtp.Commands.Invariant.{parts}
use iu7_pvs_cp.Client.Fsm.{init, finish}
use iu7_pvs_cp.Client.Connection.{Conn}
use iu7_pvs_cp.Client.Messages.Copies.{quiet}
use iu7_pvs_cp.Exchange.{ClientTurn, client_turn, Both, exchange}
use iu7_pvs_cp.Exchange.ClientTurns.{IsIdle}
use iu7_pvs_cp.Exchange.Commands.{no_return_sound, IsPlain, nothing, addressed}
use iu7_pvs_cp.Exchange.Mails.{greeted, exchange-mail}
use iu7_pvs_cp.Client.Handlers.Sending.{join}

abbrev short_mail : Conn
short_mail = record {
  mail = record {
    mail_text = codes "Subject: hi\n" ∷ codes "text\n" ∷ [];
    sender = codes "a@b";
    recievers = codes "c@d" ∷ [];
    hosts = codes "127.0.0.1" ∷ [];
    ports = 3001 ∷ [];
    tos_count = 1;
    text_len = 2;
  };
  to = codes "c@d";
  sender = codes "a@b";
  host = codes "127.0.0.1";
  port = 3001;
  state = init;
  socket = 4;
  send_buf = [];
  receive_buf = [];
  sended = 0;
  to_send = 0;
  received = 0;
  to_receive = 0;
  system = quiet;
}

short_mail-IsIdle : IsIdle short_mail init short_mail
short_mail-IsIdle = record {
  in_state = refl;
  all_sent = refl;
  all_used = refl;
  same_mail = refl;
  same_sender = refl;
  same_receiver = refl;
  same_system = refl;
}

letters-IsMail :
    (a b : ℕ) → is_atom_char a ≡ true → is_atom_char b ≡ true → IsMail (a ∷ b'@' ∷ b ∷ [])
letters-IsMail a b h k = record {
  local = a ∷ [];
  domain = b ∷ [];
  local_domain = atom (single a h);
  domain_domain = atom (single b k);
  whole = refl;
}

short_mail-IsPlain : IsPlain short_mail
unfolding is_atom_char join
short_mail-IsPlain = record {
  has_text = record { counted = refl; some_text = omega arith; ended = refl };
  no_digit = λ n. tt;
  from_mailbox = letters-IsMail b'a' b'b' refl refl;
  to_mailbox = letters-IsMail b'c' b'd' refl refl;
  one_line = no_return_sound (codes "Subject: hi\ntext\n") refl;
  no_dot = λ e. cc e;
  short_sender = omega arith;
  short_receiver = omega arith;
  short_text = omega arith;
}

abbrev no_writers : FdSet
no_writers fd = false

exchange-mail_example :
    (four : Both) × (six : Both) × (last : ClientTurn) × (exchange 4 (greeted short_mail no_writers)
      ≡ some four)
    × (four.session ≡ addressed short_mail)
    × (exchange 2 four ≡ some six)
    × (six.session ≡ parts [] 0 initial nothing)
    × (client_turn six.conn six.write_fs six.reply ≡ some last)
    × (last.bytes ≡ [])
    × (last.conn.state ≡ finish)
exchange-mail_example = exchange-mail short_mail no_writers short_mail-IsIdle short_mail-IsPlain
