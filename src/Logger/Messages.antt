-- ===== src/Logger/Messages.antt =====
-- The buffers of common/src/logger.c, and what its messages become in the files.
use iu7_pvs_cp.Base.{
  ◌+◌, ◌<◌, ◌≤◌, true, List, [], ◌∷◌, ◌++◌, ◌≡◌, refl, ap, Bytes, length, length-append, take_all,
  map, ◌-◌, ==_differs, lt→ltb, le→not-ltb, All, arith,
}
use iu7_pvs_cp.Logger.{
  LogMsgType, debug_log, info_log, warning_log, error_log, system, level_number, Logger,
  get_log_msg_type, formatted, message_line, format_message, written, logger_log, logger_open_file,
  Round, logger_main,
}

get_log_msg_type-short : (t : LogMsgType) → length (get_log_msg_type t) ≤ 7
unfolding get_log_msg_type
get_log_msg_type-short debug_log = omega arith
get_log_msg_type-short info_log = omega arith
get_log_msg_type-short warning_log = omega arith
get_log_msg_type-short error_log = omega arith
get_log_msg_type-short system = omega arith

length-message_line :
    (t : LogMsgType) (msg : Bytes)
    → length (message_line t msg) ≡ length (get_log_msg_type t) + length msg + 2
length-message_line t msg = omega (
  arith,
  length-append (get_log_msg_type t ++ b'\t' ∷ msg) (b'\n' ∷ []),
  length-append (get_log_msg_type t) (b'\t' ∷ msg),
)

-- A message with a stamp of at most 22 bytes fits in the buffer.
format_message-fits :
    (stamp : Bytes) (t : LogMsgType) (msg : Bytes)
    → 0 < length stamp
    → length stamp ≤ 22
    → format_message stamp (32 + length msg) t msg ≡ formatted (stamp ++ message_line t msg)
unfolding format_message
format_message-fits stamp t msg n l =
    let s = get_log_msg_type-short t in
    let m = length-message_line t msg in
    rw (==_differs (length stamp) 0 (λ e. omega arith)) (
      rw (le→not-ltb (32 + length msg) (length stamp + 1) (omega arith)) (
        rw (lt→ltb (length (message_line t msg)) (32 + length msg) (omega arith)) (
          rw
            (le→not-ltb (32 + length msg) (length stamp + (length (message_line t msg) + 1))
              (omega arith))
            (rw
              (le→not-ltb (32 + length msg) (length stamp + length (message_line t msg))
                (omega arith))
              refl))))

-- Whatever the message and its length, when its level, SYSTEM included, is that of the logger or
-- more, memory lasts, and the date and time are the 20 bytes of a year of four digits,
-- `logger_log` writes nothing behind its buffer and cuts nothing off: the pipe gets the stamp,
-- the type, the message and the terminator.
pub logger_log-fits :
    (stamp : Bytes) (logger : Logger) (t : LogMsgType) (message : Bytes)
    → length stamp ≡ 20
    → logger.level ≤ level_number t
    → logger_log stamp true logger t message ≡ written (stamp ++ message_line t message ++ 0 ∷ [])
unfolding logger_log
logger_log-fits stamp logger t message l v =
    rw (le→not-ltb (level_number t) logger.level v)
      (rw (format_message-fits stamp t message (omega arith) (omega arith)) refl)

-- The bytes that reach the files.
abbrev pub all_received : List Round → Bytes
all_received [] = []
all_received (r ∷ rs) = r.received ++ all_received rs

abbrev pub all_stored : List (Bytes × Bytes) → Bytes
all_stored [] = []
all_stored (w ∷ ws) = w.1 ++ all_stored ws

-- A round in which nothing fails: the name of the file fits, the file opens and takes all bytes.
pub record Works (r : Round) : Type 0 where
  pub some_bytes : 0 < length r.received
  pub short_name : length r.filename < 16
  pub opens : r.opened ≡ true
  pub takes : length r.received ≤ r.taken

-- A round of the writer that fails nowhere.
logger_main-step :
    (log_dir : Bytes) (r : Round) (rs : List Round)
    → Works r
    → logger_main log_dir (r ∷ rs)
      ≡ (log_dir ++ b'/' ∷ r.filename, r.received) ∷ logger_main log_dir rs
unfolding logger_main logger_open_file
logger_main-step log_dir r rs w =
    let b = w.some_bytes in
    let s = w.short_name in
    rw (==_differs (length r.received) 0 (λ e. omega arith)) (
      rw (lt→ltb (length r.filename) 16 s) (
        rw w.opens (
          rw (le→not-ltb r.taken (length r.received) w.takes) (
            rw
              (take_all (length log_dir + 16 + 2 - 1) (log_dir ++ b'/' ∷ r.filename)
                (omega (arith, length-append log_dir (b'/' ∷ r.filename))))
              refl))))

-- x
pub logger_main-stores :
    (log_dir : Bytes) (rounds : List Round)
    → All Works rounds
    → (all_stored (logger_main log_dir rounds) ≡ all_received rounds)
      × (map (λ w. w.0) (logger_main log_dir rounds)
          ≡ map (λ r. log_dir ++ b'/' ∷ r.filename) rounds)
unfolding logger_main
logger_main-stores log_dir [] h = (refl, refl)
logger_main-stores log_dir (r ∷ rs) h =
    let rest = logger_main-stores log_dir rs h.1 in
    rw (logger_main-step log_dir r rs h.0)
      (ap (λ x. r.received ++ x) rest.0, ap (λ x. (log_dir ++ b'/' ∷ r.filename) ∷ x) rest.1)
