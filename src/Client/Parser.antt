-- ===== src/Client/Parser.antt =====
-- client/src/parser.c: from the lines of a mail file to a mail. `malloc` succeeds.
pub mod Cuts
pub mod Receivers
pub mod OneReceiver
use iu7_pvs_cp.Base.{
  ℕ, zero, suc, ◌+◌, ◌-◌, Bool, true, false, not, ◌&&◌, ◌||◌, List, [], ◌∷◌, ◌++◌, Option, none,
  some, Bytes, codes, length, get_elem?, take, drop, ltb, ◌==◌, str_eq, map, if◌then◌else◌,
}
use mathlib.Core.Option
use iu7_pvs_cp.Client.Connection.{Mail}

-- `fault` is undefined behaviour, such as a read of memory that was never set; `null` is NULL.
pub data Result (A : Type 0) : Type 0 where
  fault : Result A
  null : Result A
  ok : A → Result A

infixl 5 ◌>>=◌
abbrev pub ◌>>=◌ : {A B : Type 0} → Result A → (A → Result B) → Result B
fault >>= f = fault
null >>= f = null
ok a >>= f = f a

-- A pointer into the string: what stands behind the byte.
abbrev pub strchr : Bytes → ℕ → Option ℕ
strchr [] b = none
strchr (c ∷ cs) b = if c == b then some 0 else Option.map suc (strchr cs b)

abbrev pub strrchr : Bytes → ℕ → Option ℕ
strrchr [] b = none
strrchr (c ∷ cs) b = elim (strrchr cs b) [
  | none ↦ if c == b then some 0 else none
  | some i ↦ some (suc i)
]

-- With `end` before `start` the size is negative, which no `malloc` can give. The difference of NULL
-- and a pointer is undefined.
between_marks : Bytes → Option ℕ → Option ℕ → Result Bytes
between_marks s none end = fault
between_marks s (some start) none = fault
between_marks s (some start) (some end) =
    if ltb end start then null else ok (take (end - start - 1) (drop (start + 1) s))

unfoldable pub cut_addresses_from_mail_format : Bytes → Result Bytes
unfolding between_marks
cut_addresses_from_mail_format addr_str_raw =
    between_marks addr_str_raw (strchr addr_str_raw b'<') (strrchr addr_str_raw b'>')

-- The end is the terminator.
unfoldable pub cut_host_from_reciever : Bytes → Result Bytes
cut_host_from_reciever reciever = elim (strchr reciever b'@') [
  | none ↦ fault
  | some start ↦ ok (drop (start + 1) reciever)
]

-- ns_t_mx and ns_t_a
pub data RecordType : Type 0 where
  ns_t_mx ns_t_a : RecordType

-- A pointer that is one byte behind `strrchr`; with NULL it is below every other pointer.
abbrev behind : Option ℕ → ℕ
behind none = 0
behind (some i) = i + 1

last_word : Bytes → ℕ → ℕ → Result Bytes
last_word rows tmp_sp tmp_tb =
    let tmp = if ltb tmp_tb tmp_sp then tmp_sp else tmp_tb in
    if tmp == 0 then fault else ok (drop tmp rows)

abbrev pub home_host : Bytes
home_host = codes "alfabank.com"

abbrev pub smtp_port : ℕ
smtp_port = 25

abbrev max_host_adr_len : ℕ
max_host_adr_len = 256

abbrev pub fst : {A B : Type 0} → A × B → A
fst p = p.0

abbrev pub snd : {A B : Type 0} → A × B → B
snd p = p.1

-- MAX_TO_COUNT
abbrev pub max_to_count : ℕ
max_to_count = 16

-- memset(…, 0, MAX_TO_COUNT) clears 16 bytes of the array, which are its first two pointers.
abbrev pub cleared : ℕ
cleared = 2

-- The lines of the receivers, up to the empty line, and the lines behind it. A line that is missing is
-- NULL, which `strcmp` cannot read.
unfoldable pub to_raws_loop : List Bytes → ℕ → Result (List Bytes × List Bytes)
to_raws_loop [] i = fault
to_raws_loop (line ∷ lines) i =
    let rest = to_raws_loop lines (i + 1) in
    if str_eq line (codes "\n") || str_eq line (codes "\r\n")
    then ok ([], lines)
    else if ltb i max_to_count
    then rest >>= (λ r. ok (line ∷ r.0, r.1))
    else fault

-- The loop over `to_raws`: the hosts with the receivers. Behind the last line stands NULL, as far as the
-- array was cleared, or a pointer that was never set.
unfoldable pub tos_loop : List Bytes → ℕ → Bool → Result (List (Bytes × Bytes))
unfolding cut_addresses_from_mail_format cut_host_from_reciever
tos_loop [] i is_home_mode = if ltb i cleared || i == max_to_count then ok [] else fault
tos_loop (to_raw ∷ to_raws) i is_home_mode = do
  to ← cut_addresses_from_mail_format to_raw
  host ← cut_host_from_reciever to
  rest ← tos_loop to_raws (i + 1) is_home_mode
  ok (if str_eq host home_host && not is_home_mode then rest else (host, to) ∷ rest)

-- Every line is copied into MAX_STR_LENGTH bytes.
unfoldable pub copy_text : List Bytes → Result (List Bytes)
copy_text [] = ok []
copy_text (line ∷ lines) = do
  rest ← copy_text lines
  if ltb (length line) 255 then ok (line ∷ rest) else fault

-- The resolver is a parameter: the text of the first answer, or a failure.
module _ (query : Bytes → RecordType → Option Bytes) where
  unfoldable pub get_record : Bytes → RecordType → Result Bytes
  unfolding last_word
  get_record host type = elim (query host type) [
    | none ↦ null
    | some rows ↦ last_word rows (behind (strrchr rows b' ')) (behind (strrchr rows b'\t'))
  ]

  -- The address and what `*port` holds then; `port` is what it held.
  unfoldable pub get_address_from_reciever : Bytes → ℕ → Bool → Result (Bytes × ℕ)
  unfolding get_record
  get_address_from_reciever reciever_host port is_home_mode =
      if str_eq reciever_host home_host
      then if is_home_mode then ok (codes "127.0.0.1", 3001) else ok (codes "home", port)
      else do
        mx ← get_record reciever_host ns_t_mx
        addr ← get_record mx ns_t_a
        if ltb (length addr) max_host_adr_len then ok (addr, smtp_port) else fault

  -- The loop of `get_recievers_from_hosts` on the hosts that are left; `i` is the index, and `port`
  -- what `malloc` left in the array of ports. Behind the last host stands NULL, as far as the array
  -- was cleared, or a pointer that was never set.
  unfoldable pub get_recievers_from_hosts : List Bytes → ℕ → ℕ → Bool → Result (List (Bytes × ℕ))
  unfolding get_address_from_reciever
  get_recievers_from_hosts [] i port is_home_mode = if ltb i cleared then ok [] else fault
  get_recievers_from_hosts (host ∷ hosts) i port is_home_mode = do
    addr ← get_address_from_reciever host port is_home_mode
    rest ← get_recievers_from_hosts hosts (i + 1) port is_home_mode
    ok (if str_eq addr.0 (codes "home") then rest else addr ∷ rest)

  unfoldable pub parse_mail : List Bytes → ℕ → Bool → Result Mail
  unfolding to_raws_loop tos_loop cut_addresses_from_mail_format get_recievers_from_hosts copy_text
  parse_mail [] port is_home_mode = null
  parse_mail (from_raw ∷ rest) port is_home_mode =
      if ltb (length (from_raw ∷ rest)) 3 then null else do
        raws ← to_raws_loop rest 0
        from ← cut_addresses_from_mail_format from_raw
        tos ← tos_loop raws.0 0 is_home_mode
        addrs ← get_recievers_from_hosts (map fst tos) 0 port is_home_mode
        text ← copy_text raws.1
        ok (record {
          mail_text = text;
          sender = from;
          recievers = map snd tos;
          hosts = map fst addrs;
          ports = map snd addrs;
          tos_count = length tos;
          text_len = length (from_raw ∷ rest) - length raws.0 - 2;
        })
