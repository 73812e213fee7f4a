-- ===== src/Client/Files/Lines.antt =====
-- The lines that `read_file` of client/src/parser.c makes of a file.
use iu7_pvs_cp.Base.{
  NoZero, NoZero-append, until_zero-NoZero, ℕ, ◌+◌, ◌-◌, ◌<◌, ◌≤◌, Bool, true, false, [], ◌∷◌, ◌++◌,
  List, ◌≡◌, refl, ap, sym, ◌∙◌, subst, append_assoc, Bytes, length, length-append, ltb, ltb→lt,
  le→not-ltb, ◌==◌, All, arith, if◌then◌else◌,
}
use iu7_pvs_cp.Client.Handlers.Sending.{join}
use iu7_pvs_cp.Client.Parser.{ok}
use iu7_pvs_cp.Client.Files.{fgets_all, copy_str_to_arr, copy_lines, read_file}

-- A line as `fgets` gives it.
abbrev pub IsLine : Bytes → Type 0
IsLine l = (0 < length l) × (length l ≤ 254)

-- The lines of what is left, when `line` was read of the line at hand.
record Covers (line cs : Bytes) (ls : List Bytes) : Type 0 where
  all_bytes : join ls ≡ line ++ cs
  all_lines : All IsLine ls
  few : length ls ≤ length line + length cs

fgets_all-cons :
    (room : ℕ) (line : Bytes) (c : ℕ) (cs : Bytes)
    → fgets_all room line (c ∷ cs) ≡ (
        if c == b'\n'
        then (line ++ c ∷ []) ∷ fgets_all 254 [] cs
        else if ltb 1 room
        then fgets_all (room - 1) (line ++ c ∷ []) cs
        else (line ++ c ∷ []) ∷ fgets_all 254 [] cs)
unfolding fgets_all
fgets_all-cons room [] c cs = refl
fgets_all-cons room (l ∷ line) c cs = refl

Covers-if :
    (b : Bool) {line cs : Bytes} {x y : List Bytes}
    → (b ≡ true → Covers line cs x)
    → (b ≡ false → Covers line cs y)
    → Covers line cs (if b then x else y)
Covers-if true h k = h refl
Covers-if false h k = k refl

-- A line that is complete, and the rest.
Covers-whole :
    (line : Bytes) (c : ℕ) (cs : Bytes) (ls : List Bytes)
    → length line < 254
    → Covers [] cs ls
    → Covers line (c ∷ cs) ((line ++ c ∷ []) ∷ ls)
unfolding join
Covers-whole line c cs ls l k = record {
  all_bytes = ap (λ x. (line ++ c ∷ []) ++ x) k.all_bytes ∙ append_assoc line (c ∷ []) cs;
  all_lines = (
    (omega (arith, length-append line (c ∷ [])), omega (arith, length-append line (c ∷ []))),
    k.all_lines,
  );
  few = let f = k.few in omega arith;
}

Covers-longer :
    (line : Bytes) (c : ℕ) (cs : Bytes) (ls : List Bytes)
    → Covers (line ++ c ∷ []) cs ls
    → Covers line (c ∷ cs) ls
Covers-longer line c cs ls k = record {
  all_bytes = k.all_bytes ∙ append_assoc line (c ∷ []) cs;
  all_lines = k.all_lines;
  few = let f = k.few in omega (arith, length-append line (c ∷ []));
}

fgets_all-Covers :
    (cs line : Bytes) (room : ℕ)
    → length line + room ≡ 254
    → 0 < room
    → Covers line cs (fgets_all room line cs)
unfolding fgets_all join
fgets_all-Covers [] [] room e l = record { all_bytes = refl; all_lines = tt; few = omega arith }
fgets_all-Covers [] (x ∷ line) room e l = record {
  all_bytes = refl;
  all_lines = ((omega arith, omega arith), tt);
  few = omega arith;
}
fgets_all-Covers (c ∷ cs) line room e l =
    let whole =
      Covers-whole line c cs (fgets_all 254 [] cs) (omega arith)
        (fgets_all-Covers cs [] 254 refl (omega arith)) in
    subst (Covers line (c ∷ cs)) (sym (fgets_all-cons room line c cs)) (
      Covers-if (c == b'\n') (λ q. whole)
        (λ q.
          Covers-if (ltb 1 room)
            (λ b.
              let k = ltb→lt 1 room b in
              Covers-longer line c cs (fgets_all (room - 1) (line ++ c ∷ []) cs) (
                fgets_all-Covers cs (line ++ c ∷ []) (room - 1)
                  (omega (arith, length-append line (c ∷ []))) (omega arith)))
            (λ b. whole)))

-- Without a zero byte all lines are copied whole.
copy_lines-NoZero : (ls : List Bytes) → NoZero (join ls) → copy_lines ls ≡ ls
unfolding copy_lines copy_str_to_arr join
copy_lines-NoZero [] h = refl
copy_lines-NoZero (l ∷ ls) h =
    let (n, m) = NoZero-append l (join ls) h in
    ap (λ x. x ∷ copy_lines ls) (until_zero-NoZero l n) ∙ ap (◌∷◌ l) (copy_lines-NoZero ls m)

-- When a file of at most 125000 bytes without a zero byte opens and closes and memory lasts,
-- `read_file` returns lines of 1 to 254 bytes which, one behind the other, are the file.
pub read_file-lines :
    (content : Bytes)
    → length content ≤ 125000
    → NoZero content
    → (lines : List Bytes) × (read_file true true true content ≡ ok lines)
      × (join lines ≡ content)
      × All IsLine lines
unfolding read_file
read_file-lines content l z =
    let k = fgets_all-Covers content [] 254 refl (omega arith) in
    let f = k.few in
    (
      fgets_all 254 [] content,
      rw (le→not-ltb 125000 (length (fgets_all 254 [] content)) (omega arith))
          (ap ok (copy_lines-NoZero (fgets_all 254 [] content) (subst NoZero (sym k.all_bytes) z))),
      k.all_bytes,
      k.all_lines,
    )
