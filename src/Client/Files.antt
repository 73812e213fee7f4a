-- ===== src/Client/Files.antt =====
-- client/src/dir_worker.c, `read_file` of client/src/parser.c, `process_mail_files` of
-- client/src/client.c and `main_loop` of client/src/main.c: from the directory of mails to their
-- processing and their removal.
pub mod Directory
pub mod Lines
pub mod Rounds
mod Examples
use iu7_pvs_cp.Base.{
  until_zero, ℕ, zero, suc, ◌+◌, ◌-◌, Bool, true, false, not, ◌&&◌, List, [], ◌∷◌, ◌++◌, map,
  Option, none, some, Bytes, length, ◌==◌, ltb, if◌then◌else◌,
}
use iu7_pvs_cp.Client.Batch.{Batched, batch_files_for_processes}
use iu7_pvs_cp.Client.Connection.{Malloced, Mail}
use iu7_pvs_cp.Client.Parser.{Result, fault, null, ok, ◌>>=◌, RecordType, parse_mail}
use iu7_pvs_cp.Client.Select.{Wake, Processed, process_mails}

-- One entry that `readdir` gives.
pub record Entry : Type 0 where
  pub is_regular : Bool
  pub name : Bytes

-- One reading of the directory: whether `opendir` and `closedir` succeed, and the entries.
pub record Listing : Type 0 where
  pub opened : Bool
  pub entries : List Entry
  pub closed : Bool

count_entries : List Entry → ℕ
count_entries [] = 0
count_entries (e ∷ es) = let rest = count_entries es in if e.is_regular then suc rest else rest

-- `none` is -1.
unfoldable pub get_files_count : Listing → Option ℕ
unfolding count_entries
get_files_count l =
    if not l.opened then none else if l.closed then some (count_entries l.entries) else none

-- PATH_MAX
abbrev pub path_max : ℕ
path_max = 4096

abbrev pub path_of : Bytes → Bytes → Bytes
path_of dir_path name = dir_path ++ b'/' ∷ name

-- The loop of `get_files_names` with room for `left` names; a path of PATH_MAX bytes or more is
-- written behind its memory.
unfoldable pub names_loop : Bytes → ℕ → List Entry → Result (List Bytes)
names_loop dir_path left [] = ok []
names_loop dir_path zero (e ∷ es) = ok []
names_loop dir_path (suc left) (e ∷ es) =
    let skipped = names_loop dir_path (suc left) es in
    let path = path_of dir_path e.name in
    let rest = names_loop dir_path left es >>= (λ names. ok (path ∷ names)) in
    if not e.is_regular then skipped else if ltb (length path) path_max then rest else fault

-- `null` is -1.
unfoldable pub get_files_names : Bytes → Listing → ℕ → Result (List Bytes)
unfolding names_loop
get_files_names dir_path l files_count =
    if not l.opened
    then null
    else names_loop dir_path files_count l.entries
      >>= (λ names. if l.closed then ok names else null)

-- mail_files_t; of the `count` names only those in `files` were written.
pub record MailFiles : Type 0 where
  pub count : ℕ
  pub files : List Bytes

-- The directory is read twice. `alloc` says whether `malloc` succeeds.
unfoldable pub check_directory : Bool → Bytes → Listing → Listing → Result MailFiles
unfolding get_files_count get_files_names
check_directory alloc dir_path first second = elim (get_files_count first) [
  | none ↦ null
  | some count ↦
      if not alloc
      then null
      else if count == 0
      then ok (record { count = 0; files = [] })
      else (get_files_names dir_path second count
          >>= (λ names. ok (record { count = count; files = names })))
]

-- What `fgets` with 255 bytes makes of a file, up to the next line end, zeros included: `line` was
-- read of the line at hand, and `room` bytes of it can follow.
unfoldable pub fgets_all : ℕ → Bytes → Bytes → List Bytes
fgets_all room [] [] = []
fgets_all room (l ∷ line) [] = (l ∷ line) ∷ []
fgets_all room line (c ∷ cs) =
    let whole = (line ++ c ∷ []) ∷ fgets_all 254 [] cs in
    let longer = fgets_all (room - 1) (line ++ c ∷ []) cs in
    if c == b'\n' then whole else if ltb 1 room then longer else whole

-- The string that is copied; a zero byte ends it.
unfoldable pub copy_str_to_arr : Bytes → Bytes
unfolding until_zero
copy_str_to_arr str = until_zero str

-- The rounds of the loop over `fgets`.
unfoldable pub copy_lines : List Bytes → List Bytes
unfolding copy_str_to_arr
copy_lines [] = []
copy_lines (str ∷ strs) = copy_str_to_arr str ∷ copy_lines strs

-- The pointers of the array that are cleared: `memset` is given their count as bytes.
abbrev pub cleared_lines : ℕ
cleared_lines = 125000

-- `null` is NULL; a line behind the pointers that were cleared is compared with what `malloc`
-- left there.
unfoldable pub read_file : Bool → Bool → Bool → Bytes → Result (List Bytes)
unfolding fgets_all copy_lines
read_file opened alloc closed content =
    if not opened
    then null
    else if not alloc && not (length content == 0)
    then null
    else if ltb cleared_lines (length (fgets_all 254 [] content))
    then fault
    else if closed
    then ok (copy_lines (fgets_all 254 [] content))
    else null

-- A file as `read_file` meets it.
pub record File : Type 0 where
  pub opened : Bool
  pub alloc : Bool
  pub closed : Bool
  pub content : Bytes

module _ (query : Bytes → RecordType → Option Bytes) (port : ℕ) (is_home_mode : Bool) where
  -- The loop over the files; `null` is -1.
  unfoldable pub read_mails : List File → Result (List Mail)
  unfolding read_file parse_mail
  read_mails [] = ok []
  read_mails (f ∷ fs) = read_file f.opened f.alloc f.closed f.content >>= (λ text.
      parse_mail query text port is_home_mode
      >>= (λ mail. read_mails fs >>= (λ mails. ok (mail ∷ mails))))

  abbrev on_mails : (List Mail → Processed) → Result (List Mail) → Processed
  on_mails next fault = Processed.fault
  on_mails next null = Processed.returned_error
  on_mails next (ok mails) = next mails

  unfoldable pub process_mail_files :
      (ℕ → Option Malloced) → (ℕ → Option ℕ × Bool) → ℕ → List Wake → List File → Processed
  unfolding read_mails process_mails
  process_mail_files malloced started pipe_descr wakes files =
      on_mails (process_mails true malloced started pipe_descr wakes) (read_mails files)

-- One round of `main_loop`: whether `malloc` succeeds, what the directory holds when it is read for
-- the first and for the second time, which calls of `fork` and of `remove` succeed.
pub record Round : Type 0 where
  pub alloc : Bool
  pub first : Listing
  pub second : Listing
  pub fork : ℕ → Bool
  pub removes : Bytes → Bool

-- `crashed` is a use of NULL, of memory that was never written or behind an array, or a division by 0;
-- with `going` the list of rounds is at its end. The names are the files that were removed.
pub data Ran : Type 0 where
  crashed : Ran
  unfinished : Ran
  returned : List Bytes → Ran
  going : List Bytes → Ran

removed : (Bytes → Bool) → List Bytes → List Bytes
removed removes [] = []
removed removes (f ∷ fs) = let rest = removed removes fs in if removes f then f ∷ rest else rest

abbrev pub also_removed : List Bytes → Ran → Ran
also_removed fs crashed = crashed
also_removed fs unfinished = unfinished
also_removed fs (returned gs) = returned (fs ++ gs)
also_removed fs (going gs) = going (fs ++ gs)

-- What `batch_files_for_processes` returned, and the loop over the names.
unfoldable pub on_batched : Batched → MailFiles → (Bytes → Bool) → Ran → Ran
unfolding removed
on_batched (Batched.fork_failed rs) m removes next = returned []
on_batched (Batched.pids_overflow rs) m removes next = crashed
on_batched Batched.out_of_fuel m removes next = unfinished
on_batched (Batched.finished rs) m removes next =
    if length m.files == m.count then also_removed (removed removes m.files) next else crashed

-- The body of the loop; behind a NULL `clear_mail_files` reads through it.
unfoldable pub on_directory : Result MailFiles → (ℕ → Batched) → (Bytes → Bool) → Ran → Ran
unfolding on_batched
on_directory fault batch removes next = crashed
on_directory null batch removes next = crashed
on_directory (ok m) batch removes next =
    if m.count == 0 then next else on_batched (batch m.count) m removes next

-- With no process the pack is divided by 0, which ends the program.
unfoldable pub main_loop : Bytes → ℕ → List Round → Ran
unfolding on_directory check_directory
main_loop maildir proc_count [] = going []
main_loop maildir proc_count (r ∷ rs) =
    let batch = λ (count : ℕ).
      if proc_count == 0
      then Batched.pids_overflow []
      else batch_files_for_processes (suc count) r.fork count proc_count in
    on_directory (check_directory r.alloc maildir r.first r.second) batch r.removes
      (main_loop maildir proc_count rs)
