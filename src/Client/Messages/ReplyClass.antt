-- ===== src/Client/Messages/ReplyClass.antt =====
-- Which replies `process_message` accepts.
use iu7_pvs_cp.Base.{
  ℕ, ◌+◌, ◌*◌, ◌<◌, false, ◌||◌, ◌∷◌, ◌≡◌, ◌≢◌, ap, ◌∙◌, suc, Bytes, ◌==◌, if◌then◌else◌, arith,
  ltb, length, [], between,
}
use iu7_pvs_cp.Client.Messages.{pos, parse_return_code, bad, good, classify, process_message}

-- What lies behind `num` does not go on with the number.
abbrev pub NoDigit : Bytes → Type 0
NoDigit [] = Unit {0}
NoDigit (b ∷ bs) = between b'0' b'9' b ≡ false

-- The code of a reply that begins with three digits.
parse_return_code_digits :
    (behind : Bytes) (a b c : ℕ) (rest : Bytes)
    → NoDigit behind
    → a < 10
    → b < 10
    → c < 10
    → parse_return_code behind ((a + b'0') ∷ (b + b'0') ∷ (c + b'0') ∷ rest)
      ≡ pos (a * 100 + b * 10 + c)
unfolding parse_return_code
parse_return_code_digits [] a b c rest h ha hb hc = ground arith
parse_return_code_digits (d ∷ ds) a b c rest h ha hb hc = ground arith

classify_digits :
    (a b c : ℕ)
    → a < 10
    → b < 10
    → c < 10
    → classify (pos (a * 100 + b * 10 + c)) ≡ (if a == 2 || a == 3 then good else bad)
unfolding classify
classify_digits a b c ha hb hc = ground arith

-- A reply of three digits and a byte that is no "-" is accepted exactly if the first digit is 2
-- or 3, and is bad otherwise.
pub process_message_class :
    (behind : Bytes) (a b c sep : ℕ) (rest : Bytes)
    → NoDigit behind
    → a < 10
    → b < 10
    → c < 10
    → sep ≢ b'-'
    → process_message behind ((a + b'0') ∷ (b + b'0') ∷ (c + b'0') ∷ sep ∷ rest)
      ≡ (if a == 2 || a == 3 then good else bad)
unfolding process_message
process_message_class behind a b c sep rest nd ha hb hc h =
    let e : (sep == b'-') ≡ false = ground arith in
    let l : ltb (suc (suc (suc (suc (length rest))))) 4 ≡ false = ground arith in
    rw l (
      rw e (
        ap classify (parse_return_code_digits behind a b c (sep ∷ rest) nd ha hb hc)
        ∙ classify_digits a b c ha hb hc))
