-- ===== src/Client/Files/Rounds.antt =====
-- The rounds of `main_loop` in client/src/main.c.
use iu7_pvs_cp.Base.{
  ℕ, suc, ◌<◌, Bool, true, false, [], ◌∷◌, ◌++◌, List, ◌≡◌, refl, ap, sym, ◌∙◌, Bytes, length,
  append_assoc, append-nil, ◌==◌, ==_self, ==_iff, ==_differs, All, arith, Bool-cases, inl, inr,
}
use iu7_pvs_cp.Client.Parser.{ok}
use iu7_pvs_cp.Client.Batch.{
  Batched, Covers, covers, batch_files_for_processes, batch_files_for_processes-Covers,
}
use iu7_pvs_cp.Client.Files.{
  Round, Ran, crashed, unfinished, going, check_directory, get_files_count, removed, also_removed,
  on_batched, on_directory, main_loop,
}
use iu7_pvs_cp.Client.Files.Directory.{regular_paths, IsShort, check_directory-regular_paths}

-- A round in which the system does what it is asked, and the directory is the same in both readings.
pub record GoesOn (maildir : Bytes) (r : Round) : Type 0 where
  pub opened : r.first.opened ≡ true
  pub closed : r.first.closed ≡ true
  pub same : r.second ≡ r.first
  pub memory : r.alloc ≡ true
  pub short : All IsShort (regular_paths maildir r.first.entries)
  pub forks : (i : ℕ) → r.fork i ≡ true
  pub removable : (f : Bytes) → r.removes f ≡ true

removed_all :
    (removes : Bytes → Bool) (fs : List Bytes)
    → ((f : Bytes) → removes f ≡ true)
    → removed removes fs ≡ fs
unfolding removed
removed_all removes [] h = refl
removed_all removes (f ∷ fs) h = rw (h f) (ap (◌∷◌ f) (removed_all removes fs h))

nothing_to_add : (ran : Ran) → also_removed [] ran ≡ ran
nothing_to_add crashed = refl
nothing_to_add unfinished = refl
nothing_to_add (Ran.returned gs) = refl
nothing_to_add (going gs) = refl

no_files : (fs : List Bytes) → length fs ≡ 0 → fs ≡ []
no_files [] e = refl
no_files (f ∷ fs) e = absurd (omega arith)

-- When all files were dealt out, they are removed.
on_batched-Covers :
    {n p : ℕ} {b : Batched} (fs : List Bytes) (removes : Bytes → Bool) (next : Ran)
    → ((f : Bytes) → removes f ≡ true)
    → Covers n p 0 b
    → on_batched b (record { count = length fs; files = fs }) removes next ≡ also_removed fs next
unfolding on_batched
on_batched-Covers fs removes next h (covers rs e l) =
    rw (==_self (length fs)) (ap (λ gs. also_removed gs next) (removed_all removes fs h))

on_directory-finds :
    (fs : List Bytes) (batch : ℕ → Batched) (removes : Bytes → Bool) (next : Ran) (p : ℕ)
    → ((f : Bytes) → removes f ≡ true)
    → Covers (length fs) p 0 (batch (length fs))
    → on_directory (ok (record { count = length fs; files = fs })) batch removes next
      ≡ also_removed fs next
unfolding on_directory
on_directory-finds fs batch removes next p h k = elim (Bool-cases (length fs == 0)) [
  | inl e ↦ rw e (
      sym (nothing_to_add next)
      ∙ ap (λ gs. also_removed gs next) (sym (no_files fs ((==_iff (length fs) 0).0 e))))
  | inr e ↦ rw e (on_batched-Covers fs removes next h k)
]

-- The regular files that the rounds find.
abbrev pub all_paths : Bytes → List Round → List Bytes
all_paths maildir [] = []
all_paths maildir (r ∷ rs) = regular_paths maildir r.first.entries ++ all_paths maildir rs

module _ (maildir : Bytes) (proc_count : ℕ) where
  main_loop-GoesOn :
      (r : Round) (rs : List Round)
      → 0 < proc_count
      → GoesOn maildir r
      → main_loop maildir proc_count (r ∷ rs)
        ≡ also_removed (regular_paths maildir r.first.entries) (main_loop maildir proc_count rs)
  unfolding main_loop
  main_loop-GoesOn r rs some_process g =
      let fs = regular_paths maildir r.first.entries in
      let found =
        ap (λ a. check_directory a maildir r.first r.second) g.memory
        ∙ ap (check_directory true maildir r.first) g.same
        ∙ check_directory-regular_paths maildir r.first g.opened g.closed g.short in
      rw found (
        rw (==_differs proc_count 0 (λ e. omega arith)) (
          on_directory-finds fs
            (λ count. batch_files_for_processes (suc count) r.fork count proc_count) r.removes
            (main_loop maildir proc_count rs) proc_count g.removable
            (batch_files_for_processes-Covers (suc (length fs)) r.fork (length fs) proc_count
              g.forks some_process (omega arith))))

  also_removed_twice :
      (fs gs : List Bytes) (ran : Ran)
      → also_removed fs (also_removed gs ran) ≡ also_removed (fs ++ gs) ran
  also_removed_twice fs gs crashed = refl
  also_removed_twice fs gs unfinished = refl
  also_removed_twice fs gs (Ran.returned hs) = ap Ran.returned (sym (append_assoc fs gs hs))
  also_removed_twice fs gs (going hs) = ap going (sym (append_assoc fs gs hs))

  main_loop-append :
      (rs rest : List Round)
      → 0 < proc_count
      → All (GoesOn maildir) rs
      → main_loop maildir proc_count (rs ++ rest)
        ≡ also_removed (all_paths maildir rs) (main_loop maildir proc_count rest)
  main_loop-append [] rest some_process k = sym (nothing_to_add (main_loop maildir proc_count rest))
  main_loop-append (r ∷ rs) rest some_process k =
      main_loop-GoesOn r (rs ++ rest) some_process k.0
      ∙ ap (also_removed (regular_paths maildir r.first.entries))
          (main_loop-append rs rest some_process k.1)
      ∙ also_removed_twice (regular_paths maildir r.first.entries) (all_paths maildir rs)
          (main_loop maildir proc_count rest)

  main_loop-closed :
      (r : Round) (rest : List Round)
      → r.first.opened ≡ false
      → main_loop maildir proc_count (r ∷ rest) ≡ crashed
  unfolding main_loop on_directory check_directory get_files_count
  main_loop-closed r rest e = rw e refl

-- When there is at least one process, and in every round the directory opens and closes, is the
-- same in both readings and has only paths shorter than PATH_MAX, memory lasts and every `fork`
-- and `remove` succeeds, the rounds of `main_loop` remove exactly the regular files that they
-- find, in order, and go on; and if the directory does not open in the round behind them, the
-- program uses NULL.
pub main_loop-all_paths :
    (maildir : Bytes) (proc_count : ℕ) (rs : List Round)
    → 0 < proc_count
    → All (GoesOn maildir) rs
    → (main_loop maildir proc_count rs ≡ going (all_paths maildir rs))
      × ((r : Round) (rest : List Round)
          → r.first.opened ≡ false
          → main_loop maildir proc_count (rs ++ r ∷ rest) ≡ crashed)
unfolding main_loop
main_loop-all_paths maildir proc_count rs h k = (
  ap (main_loop maildir proc_count) (sym (append-nil rs))
      ∙ main_loop-append maildir proc_count rs [] h k
      ∙ ap going (append-nil (all_paths maildir rs)),
  λ r rest e.
      main_loop-append maildir proc_count rs (r ∷ rest) h k
      ∙ ap (also_removed (all_paths maildir rs)) (main_loop-closed maildir proc_count r rest e),
)
