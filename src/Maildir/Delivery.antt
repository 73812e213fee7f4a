-- ===== src/Maildir/Delivery.antt =====
-- The delivery of a file by common/src/maildir.c: written under tmp, then moved to new.
use iu7_pvs_cp.Base.{
  ℕ, ◌+◌, ◌-◌, ◌<◌, Bool, false, [], ◌∷◌, ◌++◌, some, ◌≡◌, refl, ap, sym, ◌∙◌, append_assoc, Bytes,
  codes, length, length-append, take, drop, take_all, take-length-append, drop-length-append,
  le→not-ltb, arith, if◌then◌else◌,
}
use iu7_pvs_cp.Maildir.{
  Mkdir, is_refused, print_at, printed_path, success, fault, failed, Attempt, mailbox_path, stemmed,
  Temporary, on_mkstemp, maildir_tmp, maildir_new,
}

print_at-fits :
    {A : Type 0} (n : ℕ) (path buffer text : Bytes) (overflow : A) (next : Bytes → A)
    → n ≡ length path
    → take n buffer ≡ path
    → n + length text < 4096
    → print_at n buffer text overflow next ≡ next (path ++ text)
print_at-fits n path buffer text overflow next e t l =
    rw (le→not-ltb 4096 (n + length text + 1) (omega arith)) (ap (λ p. next (p ++ text)) t)

-- A path that fits is in the buffer.
take-printed_path :
    (path : Bytes) → length path < 4096 → take (length path) (printed_path path) ≡ path
take-printed_path path l =
    ap (take (length path)) (take_all 4095 path (omega arith))
    ∙ take_all (length path) path (omega arith)

-- The name that `mkstemp` completes.
stemmed-append :
    (path xs unique : Bytes) → length xs ≡ 6 → stemmed (path ++ xs) unique ≡ path ++ unique
stemmed-append path xs unique e =
    let l : length (path ++ xs) - 6 ≡ length path = omega (arith, length-append path xs) in
    ap (λ n. take n (path ++ xs) ++ unique) l ∙ ap (λ p. p ++ unique) (take-length-append path xs)

-- The path of a file in a directory of the mailbox.
abbrev pub file_in : Bytes → Bytes → Bytes → Bytes → Bytes
file_in dir maildir mailbox name = mailbox_path maildir mailbox ++ (dir ++ (b'/' ∷ name))

regroup :
    (front date rest : Bytes)
    → (front ++ (b'/' ∷ (date ++ (b'_' ∷ [])))) ++ rest ≡ front ++ (b'/' ∷ (date ++ (b'_' ∷ rest)))
regroup front date rest =
    append_assoc front (b'/' ∷ (date ++ (b'_' ∷ []))) rest
    ∙ ap (λ x. front ++ (b'/' ∷ x)) (append_assoc date (b'_' ∷ []) rest)

-- What stands behind the last slash.
drop-name :
    (n : ℕ) (front name : Bytes) → n ≡ length front → drop (n + 1) (front ++ (b'/' ∷ name)) ≡ name
drop-name n front name e =
    let l : n + 1 ≡ length (front ++ b'/' ∷ []) = omega (arith, length-append front (b'/' ∷ [])) in
    ap (λ k. drop k (front ++ (b'/' ∷ name))) l
    ∙ ap (drop (length (front ++ b'/' ∷ []))) (sym (append_assoc front (b'/' ∷ []) name))
    ∙ drop-length-append (front ++ b'/' ∷ []) name

-- What `mkstemp` leaves of the template.
on_mkstemp-name :
    (front date unique : Bytes) (n fd : ℕ)
    → n ≡ length front
    → length date ≡ 10
    → length unique ≡ 6
    → on_mkstemp (front ++ (b'/' ∷ (date ++ codes "_XXXXXX"))) n 18 (some (fd, unique))
      ≡ success (record {
        descriptor = fd;
        path = front ++ (b'/' ∷ (date ++ (b'_' ∷ unique)));
        name = date ++ (b'_' ∷ unique);
      })
on_mkstemp-name front date unique n fd e ten six =
    let name = date ++ (b'_' ∷ unique) in
    let path : stemmed (front ++ (b'/' ∷ (date ++ codes "_XXXXXX"))) unique
        ≡ front ++ (b'/' ∷ name) =
      ap (λ p. stemmed p unique) (sym (regroup front date (codes "XXXXXX")))
      ∙ stemmed-append (front ++ (b'/' ∷ (date ++ (b'_' ∷ [])))) (codes "XXXXXX") unique refl
      ∙ regroup front date unique in
    ap (λ p. success (record { descriptor = fd; path = p; name = take 18 (drop (n + 1) p) })) path
    ∙ ap (λ x. success (record { descriptor = fd; path = front ++ (b'/' ∷ name); name = x }))
        (ap (take 18) (drop-name n front name e)
          ∙ take_all 18 name (omega (arith, length-append date (b'_' ∷ unique))))

module _ (maildir mailbox date unique : Bytes) (fd : ℕ) (mailbox_made tmp_made : Mkdir)
    (ten : length date ≡ 10) (six : length unique ≡ 6)
    (room : length maildir + length mailbox < 4072)
    (mailbox_there : is_refused mailbox_made ≡ false)
    (tmp_there : is_refused tmp_made ≡ false) where
  maildir_tmp-file :
      maildir_tmp maildir mailbox 18 date mailbox_made tmp_made (some (fd, unique))
      ≡ success (record {
        descriptor = fd;
        path = file_in (codes "/tmp") maildir mailbox (date ++ (b'_' ∷ unique));
        name = date ++ (b'_' ∷ unique);
      })
  unfolding maildir_tmp
  maildir_tmp-file =
      let full = mailbox_path maildir mailbox in
      let lf = length-append maildir (b'/' ∷ mailbox) in
      let template =
        take_all 17 (date ++ codes "_XXXXXX")
          (omega (arith, length-append date (codes "_XXXXXX"))) in
      rw template (
        rw mailbox_there (
          print_at-fits (length full) full (printed_path full) (codes "/tmp") fault in_tmp refl
            (take-printed_path full (omega arith)) (omega arith)
          ∙ in_tmp-file))
    where
      in_tmp : Bytes → Attempt Temporary
      in_tmp tmp =
          if is_refused tmp_made
          then failed
          else print_at (length (mailbox_path maildir mailbox) + 4) tmp
              (b'/' ∷ (date ++ codes "_XXXXXX")) fault
              (λ path.
                on_mkstemp path (length (mailbox_path maildir mailbox) + 4) 18 (some (fd, unique)))

      in_tmp-file :
          in_tmp (mailbox_path maildir mailbox ++ codes "/tmp")
          ≡ success (record {
            descriptor = fd;
            path = file_in (codes "/tmp") maildir mailbox (date ++ (b'_' ∷ unique));
            name = date ++ (b'_' ∷ unique);
          })
      in_tmp-file =
          let full = mailbox_path maildir mailbox in
          let front = full ++ codes "/tmp" in
          let lf = length-append maildir (b'/' ∷ mailbox) in
          let lt = length-append full (codes "/tmp") in
          let ln = length-append date (codes "_XXXXXX") in
          rw tmp_there (
            print_at-fits (length full + 4) front front (b'/' ∷ (date ++ codes "_XXXXXX")) fault
              (λ path. on_mkstemp path (length full + 4) 18 (some (fd, unique))) (omega arith)
              (take_all (length full + 4) front (omega arith)) (omega arith)
            ∙ on_mkstemp-name front date unique (length full + 4) fd (omega arith) ten six
            ∙ ap
                (λ p.
                  success (record { descriptor = fd; path = p; name = date ++ (b'_' ∷ unique) }))
                (append_assoc full (codes "/tmp") (b'/' ∷ (date ++ (b'_' ∷ unique)))))

  -- The file of the name is moved from tmp to new.
  maildir_new-file :
      (new_made : Mkdir) (renamed : Bool)
      → is_refused new_made ≡ false
      → maildir_new maildir mailbox (date ++ (b'_' ∷ unique)) new_made renamed
        ≡ success (record {
          from = file_in (codes "/tmp") maildir mailbox (date ++ (b'_' ∷ unique));
          to = file_in (codes "/new") maildir mailbox (date ++ (b'_' ∷ unique));
          renamed = renamed;
        })
  unfolding maildir_new
  maildir_new-file new_made renamed there =
      let full = mailbox_path maildir mailbox in
      let name = date ++ (b'_' ∷ unique) in
      let lf = length-append maildir (b'/' ∷ mailbox) in
      let ln = length-append date (b'_' ∷ unique) in
      let lp = length-append full (codes "/tmp/" ++ name) in
      let lw = length-append full (codes "/new") in
      let old : printed_path (full ++ (codes "/tmp/" ++ name)) ≡ full ++ (codes "/tmp/" ++ name) =
        take_all 4095 (full ++ (codes "/tmp/" ++ name)) (omega arith) in
      rw there (
        print_at-fits (length (full ++ codes "/new")) (full ++ codes "/new")
          (printed_path (full ++ codes "/new")) (b'/' ∷ name) fault
          (λ new_path. success (record {
            from = printed_path (full ++ (codes "/tmp/" ++ name));
            to = new_path;
            renamed = renamed;
          }))
          refl (take-printed_path (full ++ codes "/new") (omega arith)) (omega arith)
        ∙ ap
            (λ p. success (record {
              from = p;
              to = (full ++ codes "/new") ++ (b'/' ∷ name);
              renamed = renamed;
            }))
            old
        ∙ ap
            (λ p.
              success
                (record { from = full ++ (codes "/tmp/" ++ name); to = p; renamed = renamed }))
            (append_assoc full (codes "/new") (b'/' ∷ name)))

-- When the date has ten bytes, `mkstemp` succeeds and puts six bytes in, the two names of the
-- mailbox are together shorter than 4072 bytes and no directory is refused, `maildir_tmp` with
-- MAILDIR_NAME_LEN creates a file and gives a name that fits into that length with its
-- terminator, and `maildir_new` of that name renames the path of exactly that file to the same
-- name under new.
pub maildir_new-maildir_tmp :
    (maildir mailbox date unique : Bytes) (fd : ℕ) (mailbox_made tmp_made new_made : Mkdir)
    (renamed : Bool)
    → length date ≡ 10
    → length unique ≡ 6
    → length maildir + length mailbox < 4072
    → is_refused mailbox_made ≡ false
    → is_refused tmp_made ≡ false
    → is_refused new_made ≡ false
    → (t : Temporary) × (maildir_tmp maildir mailbox 18 date mailbox_made tmp_made
          (some (fd, unique))
        ≡ success t)
      × (length t.name < 18)
      × (maildir_new maildir mailbox t.name new_made renamed
          ≡ success (record {
            from = t.path;
            to = file_in (codes "/new") maildir mailbox t.name;
            renamed = renamed;
          }))
maildir_new-maildir_tmp maildir mailbox date unique fd m t n renamed ten six room hm ht hn =
    let name = date ++ (b'_' ∷ unique) in
    (
      record { descriptor = fd; path = file_in (codes "/tmp") maildir mailbox name; name = name },
      maildir_tmp-file maildir mailbox date unique fd m t ten six room hm ht,
      omega (arith, length-append date (b'_' ∷ unique)),
      maildir_new-file maildir mailbox date unique fd m t ten six room hm ht n renamed hn,
    )
