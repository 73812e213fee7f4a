-- ===== src/Server/Examples.antt =====
-- The theorems on server/src/server.c at concrete sessions.
use iu7_pvs_cp.Base.{true, List, [], ◌∷◌, ◌++◌, none, ◌≡◌, ◌≢◌, refl, Bytes, codes, arith}
use iu7_pvs_cp.Smtp.Session.{initial, Envelope, Session}
use iu7_pvs_cp.Smtp.Commands.Invariant.{IsValid, parts}
use iu7_pvs_cp.Server.{out_of_fuel, fault, served, command_loop, read_client}
use iu7_pvs_cp.Server.Lines.{crlf, as_text, run_lines, command_loop-lines, command_loop-ne_fuel}
use iu7_pvs_cp.Server.Pieces.{at_start, held, read_client-split, read_client-return}
use iu7_pvs_cp.Server.Sessions.{read_client-quit}

abbrev nothing_yet : Envelope
nothing_yet = record { recipients = []; lines = []; sender = none }

abbrev fresh : Session
fresh = parts [] 0 initial nothing_yet

fresh-IsValid : IsValid fresh
fresh-IsValid = record { envelope_ok = (refl, refl, refl); counted = refl }

abbrev two_lines : List Bytes
two_lines = codes "A" ∷ codes "B" ∷ []

command_loop-lines_example :
    command_loop 3 true (at_start fresh) (as_text two_lines)
    ≡ run_lines true (at_start fresh) two_lines
command_loop-lines_example =
    command_loop-lines 3 true (at_start fresh) two_lines
      (((λ e. omega arith), tt), (((λ e. omega arith), tt), tt)) (omega arith)

command_loop-ne_fuel_example :
    command_loop 9 true (at_start fresh) (codes "EHLO me\r") ≢ out_of_fuel
command_loop-ne_fuel_example =
    command_loop-ne_fuel 9 true (at_start fresh) (codes "EHLO me\r") (omega arith)

read_client-split_example :
    (read_client 2 true fresh (codes "A")
      ≡ served (at_start (held (codes "A") initial nothing_yet)))
    × (read_client 2 true (held (codes "A") initial nothing_yet) (codes "B" ++ crlf [])
        ≡ read_client 2 true fresh (codes "A" ++ (codes "B" ++ crlf [])))
read_client-split_example =
    read_client-split 1 (codes "A") (codes "B") initial nothing_yet (λ e. ground arith)
      ((λ e. omega arith), tt) ((λ e. omega arith), tt)

read_client-return_example :
    (read_client 2 true fresh (codes "A" ++ b'\r' ∷ [])
      ≡ served (at_start (held (codes "A" ++ b'\r' ∷ []) initial nothing_yet)))
    × (read_client 2 true (held (codes "A" ++ b'\r' ∷ []) initial nothing_yet) (b'\n' ∷ [])
        ≡ served (
            at_start (parts ((codes "A" ++ b'\r' ∷ []) ∷ (b'\n' ∷ []) ∷ []) 3 initial nothing_yet)))
read_client-return_example =
    read_client-return 1 (codes "A") initial nothing_yet ((λ e. omega arith), tt)

read_client-quit_example : read_client 2 true fresh (codes "QUIT" ++ crlf (codes "NOOP")) ≡ fault
read_client-quit_example = read_client-quit 0 initial nothing_yet b'N' (codes "OOP") (λ e. cc)
