-- ===== src/Client/Select/Start.antt =====
-- The array of connections that client/src/client.c makes of the mails.
use iu7_pvs_cp.Base.{
  ℕ, zero, suc, ◌+◌, ◌<◌, ◌≤◌, List, [], ◌∷◌, ◌++◌, map, Option, none, some, ◌≡◌, ◌≢◌, refl, ap,
  sym, ◌∙◌, append_assoc, append-nil, Bytes, length, length-append, drop, get_elem?, lt→ltb, All,
  arith,
}
use iu7_pvs_cp.Client.Fsm.{init}
use iu7_pvs_cp.Client.Connection.{Malloced, Mail, Conn, init_connection, IsValid}
use iu7_pvs_cp.Client.Pool.{count_mails_connections}
use iu7_pvs_cp.Client.Select.{init_mail, init_mails, then_mails, init_connections}

-- `tos_count` is the length of all three arrays of a mail.
pub record IsCounted (m : Mail) : Type 0 where
  pub receivers : m.tos_count ≡ length m.recievers
  pub addresses : m.tos_count ≡ length m.hosts
  pub numbers : m.tos_count ≡ length m.ports

abbrev pub all_receivers : List Mail → List Bytes
all_receivers [] = []
all_receivers (m ∷ ms) = m.recievers ++ all_receivers ms

abbrev pub all_hosts : List Mail → List Bytes
all_hosts [] = []
all_hosts (m ∷ ms) = m.hosts ++ all_hosts ms

abbrev pub IsFresh : Conn → Type 0
IsFresh c = (c.state ≡ init) × IsValid c

-- Fresh connections to these receivers and hosts.
pub record Connects (receivers hosts : List Bytes) (cs : List Conn) : Type 0 where
  pub to_all : map (λ c. c.to) cs ≡ receivers
  pub at_hosts : map (λ c. c.host) cs ≡ hosts
  pub fresh : All IsFresh cs

module _ {A : Type 0} where
  get_elem?-drop :
      (xs : List A) (j : ℕ)
      → j < length xs
      → (x : A) × (get_elem? xs j ≡ some x) × (drop j xs ≡ x ∷ drop (suc j) xs)
  get_elem?-drop [] j l = absurd (omega arith)
  get_elem?-drop (x ∷ xs) zero l = (x, refl, refl)
  get_elem?-drop (x ∷ xs) (suc j) l = get_elem?-drop xs j (omega arith)

  drop_all : (xs : List A) (j : ℕ) → length xs ≤ j → drop j xs ≡ []
  drop_all [] zero l = refl
  drop_all [] (suc j) l = refl
  drop_all (x ∷ xs) zero l = absurd (omega arith)
  drop_all (x ∷ xs) (suc j) l = drop_all xs j (omega arith)

  All-append : (P : A → Type 0) (xs ys : List A) → All P xs → All P ys → All P (xs ++ ys)
  All-append P [] ys h k = k
  All-append P (x ∷ xs) ys h k = (h.0, All-append P xs ys h.1 k)

  map-append : {B : Type 0} (f : A → B) (xs ys : List A) → map f (xs ++ ys) ≡ map f xs ++ map f ys
  map-append f [] ys = refl
  map-append f (x ∷ xs) ys = ap (◌∷◌ (f x)) (map-append f xs ys)

-- What `init_connection` makes when all three arrays have the index.
abbrev fresh_conn : Malloced → Mail → Bytes → Bytes → ℕ → Conn
fresh_conn socket m receiver host port = record {
  mail = m;
  to = receiver;
  sender = m.sender;
  host = host;
  port = port;
  state = init;
  socket = socket.left_socket;
  send_buf = [];
  receive_buf = [];
  sended = 0;
  to_send = 0;
  received = 0;
  to_receive = 0;
  system = socket.left_system;
}

init_connection-fresh :
    (socket : Malloced) (m : Mail) (j : ℕ) {a b : Bytes} {n : ℕ}
    → get_elem? m.recievers j ≡ some a
    → get_elem? m.hosts j ≡ some b
    → get_elem? m.ports j ≡ some n
    → init_connection socket m j ≡ some (fresh_conn socket m a b n)
unfolding init_connection
init_connection-fresh socket m j e f g =
    rw (e, init_connection) (rw (f, init_connection) (rw g refl))

init_mail-step :
    (malloced : ℕ → Option Malloced) (count : ℕ) (m : Mail) (left j : ℕ) (cs : List Conn)
    {socket : Malloced} {c : Conn}
    → malloced (length cs) ≡ some socket
    → init_connection socket m j ≡ some c
    → length cs < count
    → init_mail malloced count m (suc left) j cs
      ≡ init_mail malloced count m left (suc j) (cs ++ c ∷ [])
unfolding init_mail
init_mail-step malloced count m left j cs e f l =
    rw (e, init_mail) (rw (f, init_mail) (rw (lt→ltb (length cs) count l) refl))

init_mail-Connects :
    (malloced : ℕ → Option Malloced) (count : ℕ) (m : Mail) (left j : ℕ) (cs : List Conn)
    → ((i : ℕ) → malloced i ≢ none)
    → IsCounted m
    → j + left ≡ m.tos_count
    → length cs + left ≤ count
    → (new : List Conn) × (init_mail malloced count m left j cs ≡ some (cs ++ new))
      × (length new ≡ left)
      × Connects (drop j m.recievers) (drop j m.hosts) new
unfolding init_mail
init_mail-Connects malloced count m zero j cs h k e l = (
  [],
  ap some (sym (append-nil cs)),
  refl,
  record {
    to_all = sym (drop_all m.recievers j (let r = k.receivers in omega arith));
    at_hosts = sym (drop_all m.hosts j (let r = k.addresses in omega arith));
    fresh = tt;
  },
)
init_mail-Connects malloced count m (suc left) j cs h k e l =
    let kr = k.receivers in
    let ka = k.addresses in
    let kn = k.numbers in
    let a = get_elem?-drop m.recievers j (omega arith) in
    let b = get_elem?-drop m.hosts j (omega arith) in
    let n = get_elem?-drop m.ports j (omega arith) in
    let s = not_none (malloced (length cs)) (h (length cs)) in
    let c = fresh_conn s.0 m a.0 b.0 n.0 in
    let rest =
      init_mail-Connects malloced count m left (suc j) (cs ++ c ∷ []) h k (omega arith)
        (omega (arith, length-append cs (c ∷ []))) in
    let r = rest.3 in
    (
      c ∷ rest.0,
      init_mail-step malloced count m left j cs s.1 (init_connection-fresh s.0 m j a.1 b.1 n.1)
            (omega arith)
          ∙ rest.1
          ∙ ap some (append_assoc cs (c ∷ []) rest.0),
      ap suc rest.2,
      record {
        to_all = ap (◌∷◌ a.0) r.to_all ∙ sym a.2;
        at_hosts = ap (◌∷◌ b.0) r.at_hosts ∙ sym b.2;
        fresh = ((refl, record { sending = omega arith; receiving = omega arith }), r.fresh);
      },
    )
  where
    not_none : {A : Type 0} (o : Option A) → o ≢ none → (x : A) × (o ≡ some x)
    not_none none q = absurd (q refl)
    not_none (some x) q = (x, refl)

init_mails-Connects :
    (malloced : ℕ → Option Malloced) (count : ℕ) (ms : List Mail) (cs : List Conn)
    → ((i : ℕ) → malloced i ≢ none)
    → All IsCounted ms
    → length cs + count_mails_connections ms ≤ count
    → (new : List Conn) × (init_mails malloced count ms cs ≡ some (cs ++ new))
      × (length new ≡ count_mails_connections ms)
      × Connects (all_receivers ms) (all_hosts ms) new
unfolding init_mails count_mails_connections
init_mails-Connects malloced count [] cs h k l =
    ([], ap some (sym (append-nil cs)), refl, record { to_all = refl; at_hosts = refl; fresh = tt })
init_mails-Connects malloced count (m ∷ ms) cs h k l =
    let first =
      init_mail-Connects malloced count m m.tos_count 0 cs h k.0 (omega arith) (omega arith) in
    let a = first.0 in
    let c = first.3 in
    let ln = first.2 in
    let rest =
      init_mails-Connects malloced count ms (cs ++ a) h k.1 (omega (arith, length-append cs a)) in
    let d = rest.3 in
    (
      a ++ rest.0,
      ap (λ o. then_mails o (λ xs. init_mails malloced count ms xs)) first.1
          ∙ rest.1
          ∙ ap some (append_assoc cs a rest.0),
      let lr = rest.2 in omega (arith, length-append a rest.0),
      record {
        to_all = map-append (λ x. x.to) a rest.0 ∙ cc (c.to_all, d.to_all);
        at_hosts = map-append (λ x. x.host) a rest.0 ∙ cc (c.at_hosts, d.at_hosts);
        fresh = All-append IsFresh a rest.0 c.fresh d.fresh;
      },
    )

-- When `init_connection` always has memory and the counts of the mails are the lengths of their
-- arrays, `init_connections` writes nothing behind an array of `count_mails_connections`
-- pointers and fills it: with one connection in state INIT, with valid counts, for each receiver
-- of each mail and its host, in order.
pub init_connections-fills :
    (malloced : ℕ → Option Malloced) (mails : List Mail)
    → ((i : ℕ) → malloced i ≢ none)
    → All IsCounted mails
    → (cs : List Conn) × (init_connections malloced mails (count_mails_connections mails) ≡ some cs)
      × (length cs ≡ count_mails_connections mails)
      × Connects (all_receivers mails) (all_hosts mails) cs
unfolding init_connections
init_connections-fills malloced mails h k =
    init_mails-Connects malloced (count_mails_connections mails) mails [] h k (omega arith)
