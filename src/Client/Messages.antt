-- ===== src/Client/Messages.antt =====
-- Replies of the server: `try_parse_message_part` and `parse_return_code` of client/src/parser.c
-- and `process_message` of client/src/client.c.
pub mod Copies
pub mod Parts
pub mod ReplyClass
use iu7_pvs_cp.Base.{
  until_zero, ℕ, zero, suc, ◌+◌, ◌-◌, ◌*◌, Bool, true, false, not, ◌&&◌, ◌||◌, List, [], ◌∷◌, ◌++◌,
  Option, none, some, Bytes, codes, length, take, drop, get_elem?, ◌==◌, ltb, leb, between,
  is_space, if◌then◌else◌, strstr_crlf,
}
use iu7_pvs_cp.Client.Connection.{System}

-- What `try_parse_message_part` leaves: the message or NULL, `*len`, `*new_len` and the buffer.
pub record Part : Type 0 where
  pub message : Option Bytes
  pub len : ℕ
  pub new_len : ℕ
  pub buf : Bytes

-- memmove(buf, buf + len, new_size): the bytes behind the new size stay as they were.
abbrev pub move_down : Bytes → ℕ → ℕ → Bytes
move_down buf len new_size = take new_size (drop len buf) ++ drop new_size buf

abbrev pub tabulate : (ℕ → ℕ) → ℕ → ℕ → Bytes
tabulate byte i zero = []
tabulate byte i (suc n) = byte i ∷ tabulate byte (i + 1) n

-- memcpy(buf, buf + len, new_size): the C standard says what it does when the regions do not overlap;
-- otherwise it is up to the system.
unfoldable pub copy_down : System → Bytes → ℕ → ℕ → Bytes
copy_down system buf len new_size =
    if leb new_size len
    then move_down buf len new_size
    else tabulate (system.overlapped buf len new_size) 0 new_size ++ drop new_size buf

-- A negative size is a fault of `memcpy`: `none`.
found_end : System → Bytes → ℕ → ℕ → Option ℕ → Option Part
unfolding copy_down
found_end system buf bufsize old_len none =
    some (record { message = none; len = 0; new_len = old_len; buf = buf })
found_end system buf bufsize old_len (some find_eos) =
    let len = find_eos + 2 in
    if ltb bufsize len
    then none
    else some (record {
      message = some (take len buf);
      len = len;
      new_len = bufsize - len;
      buf = copy_down system buf len (bufsize - len);
    })

-- `strstr` searches the whole buffer, also behind `bufsize`, and, since the buffer has no terminator,
-- what lies behind it: `behind`. A zero byte ends the search. `old_len` is what `*new_len` held.
-- `malloc` succeeds, so `*len` is never -1.
unfoldable pub try_parse_message_part : System → Bytes → Bytes → ℕ → ℕ → Option Part
unfolding found_end strstr_crlf until_zero
try_parse_message_part system behind buf bufsize old_len =
    found_end system buf bufsize old_len (strstr_crlf (until_zero (buf ++ behind)))

-- A signed number, as `atoi` returns it.
pub data ℤ : Type 0 where
  pos : ℕ → ℤ
  negsuc : ℕ → ℤ

abbrev pub neg : ℕ → ℤ
neg zero = pos 0
neg (suc n) = negsuc n

-- The digits at the front, behind the value read so far.
unfoldable pub digits : Bytes → ℕ → ℕ
digits [] n = n
digits (c ∷ cs) n =
    let more = digits cs (n * 10 + (c - b'0')) in if between b'0' b'9' c then more else n

signed : Bytes → ℤ
unfolding digits
signed [] = pos 0
signed (c ∷ cs) =
    if c == b'-'
    then neg (digits cs 0)
    else if c == b'+'
    then pos (digits cs 0)
    else pos (digits (c ∷ cs) 0)

-- `atoi` of the C library, on a string that is too short to overflow.
unfoldable pub atoi : Bytes → ℤ
unfolding signed is_space
atoi [] = pos 0
atoi (c ∷ cs) = let rest = atoi cs in if is_space c then rest else signed (c ∷ cs)

-- Three bytes are copied to `num`, which has no room for a terminator: `atoi` reads on in what lies
-- behind it.
unfoldable pub parse_return_code : Bytes → Bytes → ℤ
unfolding atoi
parse_return_code behind buf = atoi (take 3 buf ++ behind)

-- The results -1, 0 and 1 of `process_message`.
pub data Verdict : Type 0 where
  bad more good : Verdict

abbrev less_than : ℤ → ℕ → Bool
less_than (pos n) k = ltb n k
less_than (negsuc n) k = true

abbrev greater_than : ℤ → ℕ → Bool
greater_than (pos n) k = ltb k n
greater_than (negsuc n) k = false

classify : ℤ → Verdict
classify code =
    if less_than code 200 || greater_than code 600
    then bad
    else if not (less_than code 200) && less_than code 400
    then good
    else bad

abbrev is_byte : ℕ → Option ℕ → Bool
is_byte c none = false
is_byte c (some d) = d == c

-- `message` is the string that `strlen` counts; `behind_num` lies behind `num` of
-- `parse_return_code`.
unfoldable pub process_message : Bytes → Bytes → Verdict
unfolding parse_return_code classify
process_message behind_num message =
    if ltb (length message) 4
    then bad
    else if is_byte b'-' (get_elem? message 3)
    then more
    else classify (parse_return_code behind_num message)
