-- ===== src/Maildir.antt =====
-- common/src/maildir.c: the files of a mailbox, with what the system gives as arguments.
pub mod Delivery
mod Examples
use iu7_pvs_cp.Base.{
  ℕ, zero, suc, ◌+◌, ◌-◌, Bool, true, false, not, List, [], ◌∷◌, ◌++◌, Option, none, some, Bytes,
  codes, length, take, drop, ltb, if◌then◌else◌,
}

-- PATH_MAX
abbrev pub path_max : ℕ
path_max = 4096

-- MAILDIR_NAME_LEN
abbrev pub maildir_name_len : ℕ
maildir_name_len = 18

-- `fault` is a write behind a buffer of PATH_MAX bytes, `failed` the result -1.
pub data Attempt (A : Type 0) : Type 0 where
  fault : Attempt A
  failed : Attempt A
  success : A → Attempt A

-- What `mkdir` gives; a directory that exists already is no failure.
pub data Mkdir : Type 0 where
  made exists refused : Mkdir

abbrev pub is_refused : Mkdir → Bool
is_refused made = false
is_refused exists = false
is_refused refused = true

-- snprintf(path, PATH_MAX, ...): what the buffer holds.
abbrev pub printed_path : Bytes → Bytes
printed_path text = take (path_max - 1) text

-- snprintf(path + offset, PATH_MAX, text) behind what stands there: the limit is that of the whole
-- buffer.
abbrev pub print_at {ℓ} : {A : Type ℓ} → ℕ → Bytes → Bytes → A → (Bytes → A) → A
print_at offset path text overflow next =
    if ltb path_max (offset + length text + 1) then overflow else next (take offset path ++ text)

abbrev pub mailbox_path : Bytes → Bytes → Bytes
mailbox_path maildir mailbox = maildir ++ (b'/' ∷ mailbox)

-- mkstemp(path): -1, or a descriptor and the six bytes that it puts in the place of the last six.
abbrev pub stemmed : Bytes → Bytes → Bytes
stemmed path unique = take (length path - 6) path ++ unique

-- The file that was created, its descriptor and its name.
pub record Temporary : Type 0 where
  pub descriptor : ℕ
  pub path : Bytes
  pub name : Bytes

-- strncpy(name, path + offset + 1, len); a name of `len` bytes or more loses its terminator, and is
-- cut here.
abbrev pub on_mkstemp : Bytes → ℕ → ℕ → Option (ℕ × Bytes) → Attempt Temporary
on_mkstemp path offset len none = failed
on_mkstemp path offset len (some (fd, unique)) = success (record {
  descriptor = fd;
  path = stemmed path unique;
  name = take len (drop (offset + 1) (stemmed path unique));
})

-- `date` is what `strftime` writes.
unfoldable pub maildir_tmp :
    Bytes → Bytes → ℕ → Bytes → Mkdir → Mkdir → Option (ℕ × Bytes) → Attempt Temporary
maildir_tmp maildir mailbox len date mailbox_made tmp_made mkstemp =
    let name = take (len - 1) (date ++ codes "_XXXXXX") in
    let full = mailbox_path maildir mailbox in
    let offset = length full + 4 in
    if is_refused mailbox_made
    then failed
    else print_at (length full) (printed_path full) (codes "/tmp") fault (λ tmp.
      if is_refused tmp_made
      then failed
      else print_at offset tmp (b'/' ∷ name) fault (λ path. on_mkstemp path offset len mkstemp))

-- The two paths that `rename` is given, and its result.
pub record Rename : Type 0 where
  pub from : Bytes
  pub to : Bytes
  pub renamed : Bool

unfoldable pub maildir_new : Bytes → Bytes → Bytes → Mkdir → Bool → Attempt Rename
maildir_new maildir mailbox name new_made renamed =
    let full = mailbox_path maildir mailbox in
    let new_dir = full ++ codes "/new" in
    if is_refused new_made
    then failed
    else print_at (length new_dir) (printed_path new_dir) (b'/' ∷ name) fault (λ new_path.
      success (record {
        from = printed_path (full ++ (codes "/tmp/" ++ name));
        to = new_path;
        renamed = renamed;
      }))
