-- ===== src/Client/Files/Directory.antt =====
-- The names that client/src/dir_worker.c finds in a directory.
use iu7_pvs_cp.Base.{
  ℕ, zero, suc, ◌<◌, Bool, true, [], ◌∷◌, List, ◌≡◌, refl, ap, sym, ◌∙◌, subst, Bytes, length,
  lt→ltb, ◌==◌, ==_iff, All, arith, Bool-cases, inl, inr, if◌then◌else◌,
}
use iu7_pvs_cp.Client.Parser.{ok, ◌>>=◌}
use iu7_pvs_cp.Client.Files.{
  Entry, Listing, count_entries, get_files_count, path_of, names_loop, get_files_names,
  check_directory,
}

-- The paths of the regular files, in the order of `readdir`.
unfoldable pub regular_paths : Bytes → List Entry → List Bytes
regular_paths dir_path [] = []
regular_paths dir_path (e ∷ es) =
    let rest = regular_paths dir_path es in
    if e.is_regular then path_of dir_path e.name ∷ rest else rest

abbrev pub IsShort : Bytes → Type 0
IsShort path = length path < 4096

count_entries-regular_paths :
    (dir_path : Bytes) (es : List Entry) → count_entries es ≡ length (regular_paths dir_path es)
unfolding count_entries regular_paths
count_entries-regular_paths dir_path [] = refl
count_entries-regular_paths dir_path (e ∷ es) = elim (Bool-cases e.is_regular) [
  | inl b ↦ rw b (ap suc (count_entries-regular_paths dir_path es))
  | inr b ↦ rw b (count_entries-regular_paths dir_path es)
]

no_length : (xs : List Bytes) → 0 ≡ length xs → xs ≡ []
no_length [] e = refl
no_length (x ∷ xs) e = absurd (omega arith)

regular_paths-cons :
    (dir_path : Bytes) (e : Entry) (es : List Entry) {b : Bool}
    → e.is_regular ≡ b
    → regular_paths dir_path (e ∷ es) ≡ (
        if b
        then path_of dir_path e.name ∷ regular_paths dir_path es
        else regular_paths dir_path es)
unfolding regular_paths
regular_paths-cons dir_path e es k = rw k refl

names_loop-regular_paths :
    (dir_path : Bytes) (n : ℕ) (es : List Entry)
    → n ≡ length (regular_paths dir_path es)
    → All IsShort (regular_paths dir_path es)
    → names_loop dir_path n es ≡ ok (regular_paths dir_path es)
unfolding names_loop regular_paths
names_loop-regular_paths dir_path n [] e h = refl
names_loop-regular_paths dir_path zero (x ∷ es) e h =
    ap ok (sym (no_length (regular_paths dir_path (x ∷ es)) e))
names_loop-regular_paths dir_path (suc n) (x ∷ es) e h = elim (Bool-cases x.is_regular) [
  | inl b ↦
      let q = regular_paths-cons dir_path x es b in
      let h' = subst (All IsShort) q h in
      let e' : suc n ≡ suc (length (regular_paths dir_path es)) = e ∙ ap length q in
      let rest = names_loop-regular_paths dir_path n es (omega arith) h'.1 in
      rw b (
        rw (lt→ltb (length (path_of dir_path x.name)) 4096 h'.0)
          (ap (λ r. r >>= (λ names. ok (path_of dir_path x.name ∷ names))) rest))
      ∙ ap ok (sym q)
  | inr b ↦
      let q = regular_paths-cons dir_path x es b in
      rw b
        (names_loop-regular_paths dir_path (suc n) es (e ∙ ap length q) (subst (All IsShort) q h))
      ∙ ap ok (sym q)
]

-- When the directory opens and closes, is the same in both readings, memory lasts and all paths
-- are shorter than PATH_MAX, `check_directory` returns the paths of the regular files, in order,
-- with their count.
pub check_directory-regular_paths :
    (dir_path : Bytes) (l : Listing)
    → l.opened ≡ true
    → l.closed ≡ true
    → All IsShort (regular_paths dir_path l.entries)
    → check_directory true dir_path l l
      ≡ ok (record {
        count = length (regular_paths dir_path l.entries);
        files = regular_paths dir_path l.entries;
      })
unfolding check_directory get_files_count get_files_names
check_directory-regular_paths dir_path l o c h =
    let ps = regular_paths dir_path l.entries in
    let names = names_loop-regular_paths dir_path (length ps) l.entries refl h in
    rw o (
      rw c (
        rw (count_entries-regular_paths dir_path l.entries) (elim (Bool-cases (length ps == 0)) [
          | inl b ↦ rw b (
              ap (λ fs. ok (record { count = length fs; files = fs }))
                (sym (no_length ps (sym ((==_iff (length ps) 0).0 b)))))
          | inr b ↦ rw b (rw (names, get_files_names) refl)
        ])))
