-- ===== src/Client/Parser/Receivers.antt =====
-- The counts of a mail that `parse_mail` of client/src/parser.c returns, and mails with several
-- receivers.
use iu7_pvs_cp.Base.{
  ℕ, suc, ◌+◌, ◌-◌, ◌≤◌, ◌<◌, Bool, true, false, ◌||◌, List, [], ◌∷◌, ◌++◌, map, Option, ◌≡◌, ◌≢◌,
  refl, ap, sym, subst, All, Bytes, codes, length, str_eq, ltb, ◌==◌, if◌then◌else◌, arith,
  Bool-cases, inl, inr, lt→ltb,
}
use iu7_pvs_cp.Client.Connection.{Mail}
use iu7_pvs_cp.Client.Parser.{
  Result, fault, null, ok, ◌>>=◌, RecordType, fst, snd, cut_addresses_from_mail_format,
  cut_host_from_reciever, to_raws_loop, tos_loop, copy_text, get_recievers_from_hosts, parse_mail,
}

bind-ne_ok :
    {A B : Type 0}
    → (r : Result A) (f : A → Result B) (b : B) → ((a : A) → f a ≢ ok b)
    → (r >>= f) ≢ ok b
bind-ne_ok fault f b h = λ e. cc
bind-ne_ok null f b h = λ e. cc
bind-ne_ok (ok a) f b h = h a

bind-never :
    {A B : Type 0}
    → (r : Result A) (f : A → Result B) (b : B) → ((a : A) → r ≢ ok a)
    → (r >>= f) ≢ ok b
bind-never fault f b h = λ e. cc
bind-never null f b h = λ e. cc
bind-never (ok a) f b h = absurd (h a refl)

-- Behind the last line of a receiver stands a pointer that was never set.
tos_loop-ne_ok :
    (raws : List Bytes) (i : ℕ) (home : Bool) (t : List (Bytes × Bytes))
    → 2 ≤ i + length raws
    → i + length raws < 16
    → tos_loop raws i home ≢ ok t
unfolding tos_loop
tos_loop-ne_ok [] i home t h k = rw (unset i (omega arith) (omega arith)) (λ e. cc)
  where
    unset : (i : ℕ) → 2 ≤ i → i < 16 → ltb i 2 || i == 16 ≡ false
    unset i h k = ground arith
tos_loop-ne_ok (raw ∷ raws) i home t h k =
    bind-ne_ok (cut_addresses_from_mail_format raw) _ t (λ to.
      bind-ne_ok (cut_host_from_reciever to) _ t (λ host.
        bind-never (tos_loop raws (i + 1) home) _ t
          (λ u. tos_loop-ne_ok raws (i + 1) home u (omega arith) (omega arith))))

-- A line that does not end the receivers.
abbrev pub IsFilled : Bytes → Type 0
IsFilled line = str_eq line (codes "\n") || str_eq line (codes "\r\n") ≡ false

pub to_raws_loop-lines :
    (raws text : List Bytes) (i : ℕ)
    → All IsFilled raws
    → i + length raws ≤ 16
    → to_raws_loop (raws ++ codes "\n" ∷ text) i ≡ ok (raws, text)
unfolding to_raws_loop
to_raws_loop-lines [] text i h k = refl
to_raws_loop-lines (raw ∷ raws) text i h k = rw (h.0) (
    rw (lt→ltb i 16 (omega arith)) (
      ap (λ r. r >>= (λ (r : List Bytes × List Bytes). ok (raw ∷ r.0, r.1)))
        (to_raws_loop-lines raws text (i + 1) h.1 (omega arith))))

-- A mail file with two to fifteen lines of receivers is never parsed: behind the last of them
-- `parse_mail` reads a pointer that was never set, if it has not failed before.
pub parse_mail-ne_ok :
    (query : Bytes → RecordType → Option Bytes) (from_raw : Bytes) (raws text : List Bytes)
    (port : ℕ) (home : Bool) (m : Mail)
    → All IsFilled raws
    → 2 ≤ length raws
    → length raws < 16
    → parse_mail query (from_raw ∷ (raws ++ codes "\n" ∷ text)) port home ≢ ok m
unfolding parse_mail
parse_mail-ne_ok query from_raw raws text port home m f h k =
    elim (Bool-cases (ltb (length (from_raw ∷ (raws ++ codes "\n" ∷ text))) 3)) [
      | inl e ↦ rw e (λ e. cc)
      | inr e ↦ rw e (
          rw (to_raws_loop-lines raws text 0 f (omega arith)) (
            bind-ne_ok (cut_addresses_from_mail_format from_raw) _ m (λ from.
              bind-never (tos_loop raws 0 home) _ m
                (λ t. tos_loop-ne_ok raws 0 home t (omega arith) (omega arith)))))
    ]

-- The counts of a mail are the lengths of its arrays.
pub data Counted : Result Mail → Type 0 where
  faulty : Counted fault
  none_left : Counted null
  counted :
      {m : Mail}
      → m.text_len ≡ length m.mail_text
      → m.tos_count ≡ length m.recievers
      → Counted (ok m)

bind-Counted :
    {A : Type 0}
    → (r : Result A) (f : A → Result Mail) → ((a : A) → r ≡ ok a → Counted (f a))
    → Counted (r >>= f)
bind-Counted fault f h = faulty
bind-Counted null f h = none_left
bind-Counted (ok a) f h = h a refl

-- The lines of the receivers, the empty line and the text are all lines.
data Split (n : ℕ) : Result (List Bytes × List Bytes) → Type 0 where
  no_split :
      {r : Result (List Bytes × List Bytes)}
      → ((a : List Bytes × List Bytes) → r ≢ ok a)
      → Split n r
  split : (raws text : List Bytes) → n ≡ length raws + 1 + length text → Split n (ok (raws, text))

fault_ne_ok : {A : Type 0} → (a : A) → fault ≢ ok a
fault_ne_ok a e = cc

null_ne_ok : {A : Type 0} → (a : A) → null ≢ ok a
null_ne_ok a e = cc

Split-cons :
    {n : ℕ} (line : Bytes) (r : Result (List Bytes × List Bytes))
    → Split n r
    → Split (suc n) (r >>= (λ r. ok (line ∷ r.0, r.1)))
Split-cons line fault h = no_split fault_ne_ok
Split-cons line null h = no_split null_ne_ok
Split-cons line (ok _) (split raws text e) = split (line ∷ raws) text (omega arith)
Split-cons line (ok a) (no_split h) = absurd (h a refl)

Split-if :
    {n : ℕ} (b : Bool) (x y : Result (List Bytes × List Bytes))
    → Split n x
    → Split n y
    → Split n (if b then x else y)
Split-if true x y h k = h
Split-if false x y h k = k

to_raws_loop-Split : (lines : List Bytes) (i : ℕ) → Split (length lines) (to_raws_loop lines i)
unfolding to_raws_loop
to_raws_loop-Split [] i = no_split fault_ne_ok
to_raws_loop-Split (line ∷ lines) i = Split-if _ _ _ (split [] lines (omega arith)) (
    Split-if _ _ _ (Split-cons line (to_raws_loop lines (i + 1)) (to_raws_loop-Split lines (i + 1)))
      (no_split fault_ne_ok))

Split-eq : {n : ℕ} (a : List Bytes × List Bytes) → Split n (ok a) → n ≡ length a.0 + 1 + length a.1
Split-eq _ (split raws text e) = e
Split-eq a (no_split h) = absurd (h a refl)

-- The copy has the lines of the original.
data Copies (lines : List Bytes) : Result (List Bytes) → Type 0 where
  no_copy : Copies lines fault
  none_copied : Copies lines null
  copies : Copies lines (ok lines)

Copies-cons :
    (b : Bool) (line : Bytes) {lines : List Bytes} (r : Result (List Bytes))
    → Copies lines r
    → Copies (line ∷ lines) (r >>= (λ (rest : List Bytes). if b then ok (line ∷ rest) else fault))
Copies-cons b line _ no_copy = no_copy
Copies-cons b line _ none_copied = none_copied
Copies-cons true line _ copies = copies
Copies-cons false line _ copies = no_copy

copy_text-Copies : (lines : List Bytes) → Copies lines (copy_text lines)
unfolding copy_text
copy_text-Copies [] = copies
copy_text-Copies (line ∷ lines) =
    Copies-cons (ltb (length line) 255) line (copy_text lines) (copy_text-Copies lines)

Copies-eq : {lines : List Bytes} (t : List Bytes) → Copies lines (ok t) → length lines ≡ length t
Copies-eq _ copies = refl

length-map : {A B : Type 0} → (f : A → B) (xs : List A) → length (map f xs) ≡ length xs
length-map f [] = refl
length-map f (x ∷ xs) = ap suc (length-map f xs)

-- Whatever the lines, a mail that `parse_mail` returns has the lengths of its arrays as its
-- counts: `text_len` is that of the text, and `tos_count` that of the receivers.
pub parse_mail-Counted :
    (query : Bytes → RecordType → Option Bytes) (lines : List Bytes) (port : ℕ) (home : Bool)
    → Counted (parse_mail query lines port home)
unfolding parse_mail
parse_mail-Counted query [] port home = none_left
parse_mail-Counted query (from_raw ∷ rest) port home =
    elim (Bool-cases (ltb (length (from_raw ∷ rest)) 3)) [
      | inl e ↦ rw e none_left
      | inr e ↦ rw e (
          bind-Counted (to_raws_loop rest 0) _ (λ raws e0.
            bind-Counted (cut_addresses_from_mail_format from_raw) _ (λ from e1.
              bind-Counted (tos_loop raws.0 0 home) _ (λ tos e2.
                bind-Counted (get_recievers_from_hosts query (map fst tos) 0 port home) _
                  (λ addrs e3.
                    bind-Counted (copy_text raws.1) _
                      (λ text e4. counted (counts raws text e0 e4) (sym (length-map snd tos))))))))
    ]
  where
    counts :
        (raws : List Bytes × List Bytes) (text : List Bytes)
        → to_raws_loop rest 0 ≡ ok raws
        → copy_text raws.1 ≡ ok text
        → length (from_raw ∷ rest) - length raws.0 - 2 ≡ length text
    counts raws text e f = omega (
      arith,
      Split-eq raws (subst (Split (length rest)) e (to_raws_loop-Split rest 0)),
      Copies-eq text (subst (Copies raws.1) f (copy_text-Copies raws.1)),
    )
