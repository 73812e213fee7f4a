-- ===== src/Client/Parser/Cuts.antt =====
-- What the cutting functions of client/src/parser.c give.
use mathlib.Core.Option
use iu7_pvs_cp.Base.{
  ℕ, suc, ◌+◌, ◌-◌, false, [], ◌∷◌, ◌++◌, none, some, ◌≡◌, ◌≢◌, refl, ap, sym, ◌∙◌, All, Bytes,
  length, drop, take-length-append, drop-length-append, length-append, append_assoc, ltb, arith,
  ==_self, ==_differs, le→not-ltb,
}
use iu7_pvs_cp.Client.Parser.{
  ok, strchr, strrchr, between_marks, cut_addresses_from_mail_format, cut_host_from_reciever,
}

strchr-first :
    (s rest : Bytes) (b : ℕ) → All (λ c. c ≢ b) s → strchr (s ++ b ∷ rest) b ≡ some (length s)
strchr-first [] rest b h = rw (==_self b) refl
strchr-first (c ∷ cs) rest b h =
    rw (==_differs c b h.0) (ap (Option.map suc) (strchr-first cs rest b h.1))

strrchr-none : (s : Bytes) (b : ℕ) → All (λ c. c ≢ b) s → strrchr s b ≡ none
strrchr-none [] b h = refl
strrchr-none (c ∷ cs) b h = rw (strrchr-none cs b h.1, strrchr) (rw (==_differs c b h.0) refl)

strrchr-last :
    (s rest : Bytes) (b : ℕ) → All (λ c. c ≢ b) rest → strrchr (s ++ b ∷ rest) b ≡ some (length s)
strrchr-last [] rest b h = rw (strrchr-none rest b h, strrchr) (rw (==_self b) refl)
strrchr-last (c ∷ cs) rest b h = rw (strrchr-last cs rest b h, strrchr) refl

drop-behind : (pre rest : Bytes) (a : ℕ) → drop (length pre + 1) (pre ++ a ∷ rest) ≡ rest
drop-behind pre rest a =
    ap (λ i. drop i (pre ++ a ∷ rest)) (omega (arith, length-append pre (a ∷ [])))
    ∙ ap (drop (length (pre ++ a ∷ []))) (sym (append_assoc pre (a ∷ []) rest))
    ∙ drop-length-append (pre ++ a ∷ []) rest

cut-middle :
    (pre mid post : Bytes) (a b : ℕ)
    → between_marks
        (pre ++ (a ∷ (mid ++ b ∷ post)))
        (some (length pre))
        (some (length (pre ++ a ∷ mid)))
      ≡ ok mid
unfolding between_marks
cut-middle pre mid post a b =
    let l = length-append pre (a ∷ mid) in
    let n : length (pre ++ a ∷ mid) - length pre - 1 ≡ length mid = omega arith in
    let f : ltb (length (pre ++ a ∷ mid)) (length pre) ≡ false =
      le→not-ltb (length (pre ++ a ∷ mid)) (length pre) (omega arith) in
    rw f
      (rw n (rw (drop-behind pre (mid ++ b ∷ post) a) (ap ok (take-length-append mid (b ∷ post)))))

-- On a line with "<" and behind it ">", no "<" before the first and no ">" behind the last,
-- `cut_addresses_from_mail_format` returns what stands between them.
pub cut_addresses_from_mail_format_middle :
    (pre mid post : Bytes)
    → All (λ c. c ≢ b'<') pre
    → All (λ c. c ≢ b'>') post
    → cut_addresses_from_mail_format (pre ++ (b'<' ∷ (mid ++ b'>' ∷ post))) ≡ ok mid
unfolding cut_addresses_from_mail_format
cut_addresses_from_mail_format_middle pre mid post h k =
    let s = pre ++ (b'<' ∷ (mid ++ b'>' ∷ post)) in
    ap (λ o. between_marks s o (strrchr s b'>')) (strchr-first pre (mid ++ b'>' ∷ post) b'<' h)
    ∙ ap (between_marks s (some (length pre))) (
        ap (λ x. strrchr x b'>') (sym (append_assoc pre (b'<' ∷ mid) (b'>' ∷ post)))
        ∙ strrchr-last (pre ++ b'<' ∷ mid) post b'>' k)
    ∙ cut-middle pre mid post b'<' b'>'

-- On an address whose local part has no "@", `cut_host_from_reciever` returns what stands behind
-- the "@".
pub cut_host_from_reciever_behind :
    (local host : Bytes)
    → All (λ c. c ≢ b'@') local
    → cut_host_from_reciever (local ++ b'@' ∷ host) ≡ ok host
unfolding cut_host_from_reciever
cut_host_from_reciever_behind local host h =
    rw (strchr-first local host b'@' h, cut_host_from_reciever)
      (ap ok (drop-behind local host b'@'))
