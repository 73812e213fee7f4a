-- ===== src/Server.antt =====
-- server/src/server.c: what `server_start` does with the bytes of one read of a client.
pub mod Lines
pub mod Pieces
pub mod Sessions
pub mod Loop
mod Examples
use iu7_pvs_cp.Base.{
  ℕ, zero, suc, ◌+◌, Bool, true, false, not, List, [], ◌∷◌, ◌++◌, Option, none, some, Bytes, length,
  take, drop, ltb, if◌then◌else◌,
}
use iu7_pvs_cp.StringUtils.{strcrlf}
use iu7_pvs_cp.Smtp.Session.{Session, ring_add_tail}
use iu7_pvs_cp.Smtp.Commands.{Outcome, smtp_process_command}

-- SERVER_REPLY_MAX_LEN
abbrev pub reply_max_len : ℕ
reply_max_len = 256

-- The variables of the loop: the session, whether it was freed, the reply buffer, which is filled
-- with zeros before the loop, and the texts that were sent, the first at the front.
pub record Progress : Type 0 where
  pub session : Session
  pub freed : Bool
  pub reply : Bytes
  pub sent : List Bytes

-- `fault` is a use of the freed session, a NULL of `malloc` that is written through, or a write
-- behind the end of `command`.
pub data Served : Type 0 where
  fault : Served
  out_of_fuel : Served
  served : Progress → Served

-- The lines of `session->buffer` one behind the other, as `strcat` puts them.
unfoldable pub strcat_all : List Bytes → Bytes
strcat_all [] = []
strcat_all (line ∷ lines) = line ++ strcat_all lines

-- `session->buffer = &line->list`, or `list_add_tail`.
abbrev pub add_piece : List Bytes → Bytes → List Bytes
add_piece [] line = line ∷ []
add_piece buffer line = ring_add_tail buffer line

-- No line end is left: the rest is kept. `alloc` says whether `malloc` succeeds.
unfoldable pub store_piece : Bool → Progress → Bytes → Served
store_piece alloc p start =
    let s = p.session in
    if not alloc
    then served p
    else if p.freed
    then fault
    else served (record p {
      session = record s {
        buffer = add_piece s.buffer start;
        buffer_size = s.buffer_size + length start;
      };
    })

-- The reply is sent; with -1 the session is freed.
unfoldable pub on_outcome : Progress → Option Outcome → Option Progress
on_outcome p none = none
on_outcome p (some o) = some (record {
  session = o.session;
  freed = o.closing;
  reply = o.reply;
  sent = p.sent ++ o.reply ∷ [];
})

-- The command is what was kept and `piece`, in `command_size + 1` bytes.
unfoldable pub one_command : Bool → Progress → Bytes → Option Progress
unfolding on_outcome strcat_all
one_command alloc p piece =
    let s = p.session in
    let command = strcat_all s.buffer ++ piece in
    if p.freed
    then none
    else if not alloc
    then none
    else if ltb (length piece + s.buffer_size) (length command)
    then none
    else on_outcome p (smtp_process_command command alloc s p.reply reply_max_len)

abbrev pub after_command : Option Progress → (Progress → Served) → Served
after_command none next = fault
after_command (some p) next = next p

-- The two branches of the loop's body.
unfoldable pub on_crlf : Bool → Progress → Bytes → Option ℕ → (Progress → Bytes → Served) → Served
unfolding store_piece one_command
on_crlf alloc p start none next = store_piece alloc p start
on_crlf alloc p start (some end) next =
    after_command (one_command alloc p (take end start)) (λ q. next q (drop (end + 2) start))

-- The loop over the commands of a read.
unfoldable pub command_loop : ℕ → Bool → Progress → Bytes → Served
unfolding on_crlf
command_loop zero alloc p start = out_of_fuel
command_loop (suc fuel) alloc p [] = served p
command_loop (suc fuel) alloc p (c ∷ cs) =
    on_crlf alloc p (c ∷ cs) (strcrlf (c ∷ cs)) (λ q rest. command_loop fuel alloc q rest)

-- One read of a client that has a session: `buf` is what arrived, up to its first zero.
unfoldable pub read_client : ℕ → Bool → Session → Bytes → Served
unfolding command_loop
read_client fuel alloc session buf =
    command_loop fuel alloc (record { session = session; freed = false; reply = []; sent = [] }) buf
