-- ===== src/Client/Select/Examples.antt =====
-- The theorems on `process_mails` of client/src/client.c at concrete mails.
use iu7_pvs_cp.Base.{
  ℕ, Bool, true, false, List, [], ◌∷◌, Option, some, ◌≡◌, refl, codes, length, ◌==◌, if◌then◌else◌,
}
use iu7_pvs_cp.Client.Messages.Copies.{quiet}
use iu7_pvs_cp.Client.Connection.{Malloced, Mail, Conn}
use iu7_pvs_cp.Client.Io.{recv_bytes, send_taken}
use iu7_pvs_cp.Client.Pool.{count_mails_connections}
use iu7_pvs_cp.Client.Select.{init_connections, Wake, ready, process_mails}
use iu7_pvs_cp.Client.Select.Start.{IsCounted, Connects, init_connections-fills}
use iu7_pvs_cp.Client.Select.Reports.{Reported, process_mails-Reported}

abbrev two_receivers : Mail
two_receivers = record {
  mail_text = codes "text\n" ∷ [];
  sender = codes "a@b.c";
  recievers = codes "d@e.f" ∷ codes "g@h.i" ∷ [];
  hosts = codes "10.0.0.1" ∷ codes "10.0.0.2" ∷ [];
  ports = 25 ∷ 25 ∷ [];
  tos_count = 2;
  text_len = 1;
}

two_receivers-IsCounted : IsCounted two_receivers
two_receivers-IsCounted = record { receivers = refl; addresses = refl; numbers = refl }

abbrev garbage : ℕ → Option Malloced
garbage i = some (record { left_socket = 99; left_system = quiet })

-- The sockets are 5 and 6.
abbrev sockets : ℕ → Option ℕ × Bool
sockets i = if i == 0 then (some 5, true) else (some 6, true)

-- Both servers close the connection.
abbrev both_lost : List Wake
both_lost =
    ready (λ fd. if fd == 5 then true else fd == 6) (λ fd. false) (λ fd. recv_bytes [])
      (λ fd. send_taken 0)
    ∷ []

init_connections-fills_example :
    (cs : List Conn) × (init_connections garbage (two_receivers ∷ []) 2 ≡ some cs)
    × (length cs ≡ 2)
    × Connects (codes "d@e.f" ∷ codes "g@h.i" ∷ []) (codes "10.0.0.1" ∷ codes "10.0.0.2" ∷ []) cs
unfolding count_mails_connections
init_connections-fills_example =
    init_connections-fills garbage (two_receivers ∷ []) (λ i e. cc e) (two_receivers-IsCounted, tt)

process_mails-Reported_example :
    Reported
      (codes "d@e.f" ∷ codes "g@h.i" ∷ [])
      (process_mails true garbage sockets 3 both_lost (two_receivers ∷ []))
process_mails-Reported_example =
    process_mails-Reported true garbage sockets 3 both_lost (two_receivers ∷ []) (λ i e. cc e)
      (two_receivers-IsCounted, tt)
