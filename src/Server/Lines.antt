-- ===== src/Server/Lines.antt =====
-- The loop of server/src/server.c on whole lines, and that it ends.
use iu7_pvs_cp.Base.{
  ℕ, zero, suc, ◌+◌, ◌<◌, Bool, List, [], ◌∷◌, ◌++◌, Option, none, some, ◌≡◌, ◌≢◌, refl, ap, sym,
  ◌∙◌, All, Bool-cases, inl, inr, true, false, Bytes, length, take, drop, take-length-append,
  length-append, length-drop, arith, drop-length-append, append_assoc,
}
use iu7_pvs_cp.StringUtils.{strcrlf}
use iu7_pvs_cp.StringUtils.Crlf.{NoReturn, strcrlf_found}
use iu7_pvs_cp.Server.{
  Progress, Served, out_of_fuel, served, store_piece, one_command, after_command, on_crlf,
  command_loop,
}

abbrev pub crlf : Bytes → Bytes
crlf rest = b'\r' ∷ b'\n' ∷ rest

drop-line : (line rest : Bytes) → drop (length line + 2) (line ++ crlf rest) ≡ rest
drop-line line rest =
    let l : length line + 2 ≡ length (line ++ crlf []) =
      omega (arith, length-append line (crlf [])) in
    ap (λ n. drop n (line ++ crlf rest)) l
    ∙ ap (drop (length (line ++ crlf []))) (sym (append_assoc line (crlf []) rest))
    ∙ drop-length-append (line ++ crlf []) rest

on_crlf-line :
    (alloc : Bool) (p : Progress) (line rest : Bytes) (next : Progress → Bytes → Served)
    → on_crlf alloc p (line ++ crlf rest) (some (length line)) next
      ≡ after_command (one_command alloc p line) (λ q. next q rest)
unfolding on_crlf
on_crlf-line alloc p line rest next =
    rw (take-length-append line (crlf rest)) (rw (drop-line line rest) refl)

-- One round of the loop on a line with its end.
pub command_loop-line :
    (fuel : ℕ) (alloc : Bool) (p : Progress) (line rest : Bytes)
    → NoReturn line
    → command_loop (suc fuel) alloc p (line ++ crlf rest)
      ≡ after_command (one_command alloc p line) (λ q. command_loop fuel alloc q rest)
unfolding command_loop
command_loop-line fuel alloc p [] rest h =
    ap (λ o. on_crlf alloc p (crlf rest) o (λ q r. command_loop fuel alloc q r))
      (strcrlf_found [] rest h)
    ∙ on_crlf-line alloc p [] rest (command_loop fuel alloc)
command_loop-line fuel alloc p (c ∷ cs) rest h =
    ap (λ o. on_crlf alloc p (c ∷ (cs ++ crlf rest)) o (λ q r. command_loop fuel alloc q r))
      (strcrlf_found (c ∷ cs) rest h)
    ∙ on_crlf-line alloc p (c ∷ cs) rest (command_loop fuel alloc)

-- The lines of a client, each with its end.
abbrev pub as_text : List Bytes → Bytes
as_text [] = []
as_text (l ∷ ls) = l ++ crlf (as_text ls)

-- The lines as commands, with no search for their ends.
unfoldable pub run_lines : Bool → Progress → List Bytes → Served
run_lines alloc p [] = served p
run_lines alloc p (l ∷ ls) = after_command (one_command alloc p l) (λ q. run_lines alloc q ls)

after_command-same :
    (o : Option Progress) (f g : Progress → Served)
    → ((q : Progress) → f q ≡ g q)
    → after_command o f ≡ after_command o g
after_command-same none f g h = refl
after_command-same (some q) f g h = h q

-- On lines without carriage returns, each with its end, and with more fuel than lines, the loop
-- over a read runs the lines as commands, one after the other.
pub command_loop-lines :
    (fuel : ℕ) (alloc : Bool) (p : Progress) (lines : List Bytes)
    → All NoReturn lines
    → length lines < fuel
    → command_loop fuel alloc p (as_text lines) ≡ run_lines alloc p lines
unfolding command_loop run_lines
command_loop-lines zero alloc p lines h k = absurd (omega arith)
command_loop-lines (suc fuel) alloc p [] h k = refl
command_loop-lines (suc fuel) alloc p (l ∷ ls) h k =
    command_loop-line fuel alloc p l (as_text ls) h.0
    ∙ after_command-same (one_command alloc p l) _ _
        (λ q. command_loop-lines fuel alloc q ls h.1 (omega arith))

store_piece-ne_fuel :
    (alloc : Bool) (p : Progress) (start : Bytes) → store_piece alloc p start ≢ out_of_fuel
unfolding store_piece
store_piece-ne_fuel false p start = λ e. cc
store_piece-ne_fuel true p start = elim (Bool-cases p.freed) [
  | inl e ↦ rw e (λ h. cc)
  | inr e ↦ rw e (λ h. cc)
]

after_command-ne_fuel :
    (o : Option Progress) (next : Progress → Served)
    → ((q : Progress) → next q ≢ out_of_fuel)
    → after_command o next ≢ out_of_fuel
after_command-ne_fuel none next h = λ e. cc
after_command-ne_fuel (some q) next h = h q

on_crlf-ne_fuel :
    (alloc : Bool) (p : Progress) (start : Bytes) (o : Option ℕ) (next : Progress → Bytes → Served)
    → ((q : Progress) (n : ℕ) → next q (drop (n + 2) start) ≢ out_of_fuel)
    → on_crlf alloc p start o next ≢ out_of_fuel
unfolding on_crlf
on_crlf-ne_fuel alloc p start none next h = store_piece-ne_fuel alloc p start
on_crlf-ne_fuel alloc p start (some n) next h =
    after_command-ne_fuel (one_command alloc p (take n start)) _ (λ q. h q n)

-- The loop over the commands of a read ends: more fuel than there are bytes is enough, whatever
-- the bytes and the session.
pub command_loop-ne_fuel :
    (fuel : ℕ) (alloc : Bool) (p : Progress) (start : Bytes)
    → length start < fuel
    → command_loop fuel alloc p start ≢ out_of_fuel
unfolding command_loop
command_loop-ne_fuel zero alloc p start h = absurd (omega arith)
command_loop-ne_fuel (suc fuel) alloc p [] h = λ e. cc
command_loop-ne_fuel (suc fuel) alloc p (c ∷ cs) h =
    on_crlf-ne_fuel alloc p (c ∷ cs) (strcrlf (c ∷ cs)) (command_loop fuel alloc)
      (λ q n. command_loop-ne_fuel fuel alloc q (drop (n + 2) (c ∷ cs)) (shorter n))
  where
    shorter : (n : ℕ) → length (drop (n + 2) (c ∷ cs)) < fuel
    shorter n = omega (arith, length-drop (n + 2) (c ∷ cs))
