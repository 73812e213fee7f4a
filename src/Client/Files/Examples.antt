-- ===== src/Client/Files/Examples.antt =====
-- The theorems on the files of the client at concrete directories and files.
use iu7_pvs_cp.Base.{true, false, List, [], ◌∷◌, ◌≡◌, refl, Bytes, codes, All, arith}
use iu7_pvs_cp.Client.Handlers.Sending.{join}
use iu7_pvs_cp.Client.Parser.{ok}
use iu7_pvs_cp.Client.Files.{Listing, read_file, Round, going, crashed, main_loop}
use iu7_pvs_cp.Client.Files.Lines.{IsLine, read_file-lines}
use iu7_pvs_cp.Client.Files.Directory.{regular_paths}
use iu7_pvs_cp.Client.Files.Rounds.{GoesOn, main_loop-all_paths}

abbrev two_entries : Listing
two_entries = record {
  opened = true;
  entries =
      record { is_regular = false; name = codes "." }
      ∷ record { is_regular = true; name = codes "m1" }
      ∷ [];
  closed = true;
}

read_file-lines_example :
    (lines : List Bytes) × (read_file true true true (codes "a\nbc") ≡ ok lines)
    × (join lines ≡ codes "a\nbc")
    × All IsLine lines
read_file-lines_example =
    read_file-lines (codes "a\nbc") (omega arith)
      ((λ e. omega arith), ((λ e. omega arith), ((λ e. omega arith), ((λ e. omega arith), tt))))

abbrev one_mail : Round
one_mail = record {
  alloc = true;
  first = two_entries;
  second = two_entries;
  fork = λ i. true;
  removes = λ f. true;
}

one_mail-GoesOn : GoesOn (codes "out") one_mail
unfolding regular_paths
one_mail-GoesOn = record {
  opened = refl;
  closed = refl;
  same = refl;
  memory = refl;
  short = (omega arith, tt);
  forks = λ i. refl;
  removable = λ f. refl;
}

main_loop-all_paths_example :
    (main_loop (codes "out") 2 (one_mail ∷ []) ≡ going (codes "out/m1" ∷ []))
    × ((r : Round) (rest : List Round)
        → r.first.opened ≡ false
        → main_loop (codes "out") 2 (one_mail ∷ r ∷ rest) ≡ crashed)
unfolding regular_paths
main_loop-all_paths_example =
    main_loop-all_paths (codes "out") 2 (one_mail ∷ []) (omega arith) (one_mail-GoesOn, tt)
