-- ===== src/Logger.antt =====
-- common/src/logger.c: the messages of both programs and the process that writes them to files.
-- Time is an argument: what `strftime` makes of it.
pub mod Messages
mod Examples
use iu7_pvs_cp.Base.{
  ℕ, ◌+◌, ◌-◌, ◌%◌, Bool, true, false, not, List, [], ◌∷◌, ◌++◌, Option, none, some, Bytes, codes,
  length, take, ◌==◌, ltb, if◌then◌else◌,
}

-- log_msg_type_t
pub data LogMsgType : Type 0 where
  debug_log info_log warning_log error_log system : LogMsgType

abbrev pub level_number : LogMsgType → ℕ
level_number debug_log = 1
level_number info_log = 2
level_number warning_log = 3
level_number error_log = 4
level_number system = 15

-- logger_t; the descriptor of the pipe is left out.
pub record Logger : Type 0 where
  pub logger_pid : ℕ
  pub level : ℕ

-- What `fork` gives in the process that calls it: -1, 0 in the child, or the number of the child.
pub data Forked : Type 0 where
  fork_failed : Forked
  child : Forked
  parent : ℕ → Forked

-- What `logger_init` does: NULL, the process that becomes the writer and exits, or the logger.
pub data Started : Type 0 where
  no_logger : Started
  writer : Started
  started : Logger → Started

-- `logger_options & 0xff`
unfoldable pub logger_init : Bool → Forked → Bool → ℕ → Started
logger_init piped forked alloc logger_options = if not piped then no_logger else elim forked [
  | fork_failed ↦ no_logger
  | child ↦ writer
  | parent pid ↦
      if alloc
      then started (record { logger_pid = pid; level = logger_options % 256 })
      else no_logger
]

unfoldable pub get_log_msg_type : LogMsgType → Bytes
get_log_msg_type debug_log = codes "DEBUG"
get_log_msg_type info_log = codes "INFO"
get_log_msg_type warning_log = codes "WARNING"
get_log_msg_type error_log = codes "ERROR"
get_log_msg_type system = codes "NONE"

-- `overflow` is a write behind the buffer.
pub data Formatted : Type 0 where
  overflow : Formatted
  unformatted : Formatted
  formatted : Bytes → Formatted

-- snprintf(buffer, size, "%s\t%s\n", ...)
abbrev pub message_line : LogMsgType → Bytes → Bytes
message_line level msg = get_log_msg_type level ++ b'\t' ∷ msg ++ b'\n' ∷ []

-- How many bytes `snprintf` writes of a text, with the terminator.
abbrev pub printed : ℕ → Bytes → ℕ
printed size text = if ltb (length text) size then length text + 1 else size

-- `stamp` is what `strftime` writes when it and its terminator fit. `snprintf` is given the whole
-- size of the buffer, though it starts behind the stamp.
unfoldable pub format_message : Bytes → ℕ → LogMsgType → Bytes → Formatted
unfolding get_log_msg_type
format_message stamp size level msg =
    let line = message_line level msg in
    if length stamp == 0
    then unformatted
    else if ltb size (length stamp + 1)
    then unformatted
    else if ltb size (length stamp + printed size line)
    then overflow
    else if ltb size (length stamp + length line)
    then unformatted
    else formatted (stamp ++ line)

-- What `logger_log` does: 0 below the level of the logger, -1 without memory or with a text that does
-- not fit, a fault, or a `write` of these bytes.
pub data Logged : Type 0 where
  below_level : Logged
  no_memory : Logged
  too_long : Logged
  fault : Logged
  written : Bytes → Logged

-- `len + 1` bytes are written: the terminator too.
abbrev pub on_formatted : Formatted → Logged
on_formatted overflow = fault
on_formatted unformatted = too_long
on_formatted (formatted text) = written (text ++ 0 ∷ [])

-- LOG_MAX_PREFIX_SIZE
abbrev pub log_max_prefix_size : ℕ
log_max_prefix_size = 32

unfoldable pub logger_log : Bytes → Bool → Logger → LogMsgType → Bytes → Logged
unfolding format_message
logger_log stamp alloc logger_sender level message =
    if ltb (level_number level) logger_sender.level
    then below_level
    else if not alloc
    then no_memory
    else on_formatted (format_message stamp (log_max_prefix_size + length message) level message)

-- LOG_MAX_FILENAME_SIZE
abbrev pub log_max_filename_size : ℕ
log_max_filename_size = 16

-- The path that `logger_open_file` opens; `filename` is what `strftime` writes when it and its
-- terminator fit. `malloc` succeeds. `path_size` bytes hold the text and its terminator.
unfoldable pub logger_open_file : Bytes → Bytes → Option Bytes
logger_open_file filename log_dir =
    let path_size = length log_dir + log_max_filename_size + 2 in
    if ltb (length filename) log_max_filename_size
    then some (take (path_size - 1) (log_dir ++ b'/' ∷ filename))
    else none

-- One round of the writer: what `read` gives, the name of the file of the day, whether `fopen`
-- succeeds, and how many bytes `fwrite` takes.
pub record Round : Type 0 where
  pub received : Bytes
  pub filename : Bytes
  pub opened : Bool
  pub taken : ℕ

-- What reaches which file, the first at the front. The end of the list, and no bytes, are the end of
-- the pipe.
unfoldable pub logger_main : Bytes → List Round → List (Bytes × Bytes)
unfolding logger_open_file
logger_main log_dir [] = []
logger_main log_dir (r ∷ rs) =
    let rest = logger_main log_dir rs in
    if length r.received == 0 then [] else elim (logger_open_file r.filename log_dir) [
      | none ↦ []
      | some path ↦
          if not r.opened
          then []
          else if ltb r.taken (length r.received)
          then (path, take r.taken r.received) ∷ []
          else (path, r.received) ∷ rest
    ]
