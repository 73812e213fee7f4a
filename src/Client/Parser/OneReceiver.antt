-- ===== src/Client/Parser/OneReceiver.antt =====
-- The mail that `parse_mail` of client/src/parser.c makes of a file with one receiver.
use iu7_pvs_cp.Base.{
  ℕ, suc, ◌-◌, ◌<◌, Bool, false, List, [], ◌∷◌, Option, ◌≡◌, refl, All, Bytes, codes, length,
  str_eq, lt→ltb, le→not-ltb, arith,
}
use iu7_pvs_cp.Client.Parser.{
  ok, RecordType, home_host, cut_addresses_from_mail_format, cut_host_from_reciever, tos_loop,
  copy_text, get_address_from_reciever, get_recievers_from_hosts, parse_mail,
}
use iu7_pvs_cp.Client.Parser.Receivers.{IsFilled, to_raws_loop-lines}

-- The line of the receiver, its address and the host.
pub record Receiver (to_raw to host : Bytes) : Type 0 where
  pub filled : IsFilled to_raw
  pub address : cut_addresses_from_mail_format to_raw ≡ ok to
  pub host_of : cut_host_from_reciever to ≡ ok host
  pub elsewhere : str_eq host home_host ≡ false

tos_loop-one :
    (to_raw to host : Bytes) (home : Bool)
    → Receiver to_raw to host
    → tos_loop (to_raw ∷ []) 0 home ≡ ok ((host, to) ∷ [])
unfolding tos_loop
tos_loop-one to_raw to host home r = rw (r.address) (rw (r.host_of) (rw (r.elsewhere) refl))

get_recievers_from_hosts-one :
    (query : Bytes → RecordType → Option Bytes) (host addr : Bytes) (port p : ℕ) (home : Bool)
    → get_address_from_reciever query host port home ≡ ok (addr, p)
    → str_eq addr (codes "home") ≡ false
    → get_recievers_from_hosts query (host ∷ []) 0 port home ≡ ok ((addr, p) ∷ [])
unfolding get_recievers_from_hosts
get_recievers_from_hosts-one query host addr port p home e h = rw e (rw h refl)

copy_text-All : (lines : List Bytes) → All (λ l. length l < 255) lines → copy_text lines ≡ ok lines
unfolding copy_text
copy_text-All [] h = refl
copy_text-All (l ∷ ls) h = rw (copy_text-All ls h.1) (rw (lt→ltb (length l) 255 h.0) refl)

-- On a file that is the line of the sender, the line of one receiver, an empty line and text
-- lines of fewer than 255 bytes, where both lines have an address, the receiver has a host other
-- than the home host, and `get_address_from_reciever` finds an address, which is not the word
-- "home", and a port, `parse_mail` returns the mail with that sender, receiver, address, port
-- and text.
pub parse_mail-one :
    (query : Bytes → RecordType → Option Bytes) (from_raw to_raw from to host addr : Bytes)
    (text : List Bytes) (port p : ℕ) (home : Bool)
    → cut_addresses_from_mail_format from_raw ≡ ok from
    → Receiver to_raw to host
    → get_address_from_reciever query host port home ≡ ok (addr, p)
    → str_eq addr (codes "home") ≡ false
    → All (λ l. length l < 255) text
    → parse_mail query (from_raw ∷ to_raw ∷ codes "\n" ∷ text) port home
      ≡ ok (record {
        mail_text = text;
        sender = from;
        recievers = to ∷ [];
        hosts = addr ∷ [];
        ports = p ∷ [];
        tos_count = 1;
        text_len = length text;
      })
unfolding parse_mail
parse_mail-one query from_raw to_raw from to host addr text port p home ef r ea h t =
    let l : suc (suc (suc (length text))) - 1 - 2 ≡ length text = omega arith in
    rw (le→not-ltb (suc (suc (suc (length text)))) 3 (omega arith)) (
      rw (to_raws_loop-lines (to_raw ∷ []) text 0 (r.filled, tt) (omega arith)) (
        rw ef (
          rw (tos_loop-one to_raw to host home r) (
            rw (get_recievers_from_hosts-one query host addr port p home ea h)
              (rw (copy_text-All text t) (rw l refl))))))
