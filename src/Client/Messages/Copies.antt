-- ===== src/Client/Messages/Copies.antt =====
-- `memcpy` within a buffer of the client, as client/src/parser.c and client/src/client.c call it.
use iu7_pvs_cp.Base.{
  ℕ, zero, suc, ◌+◌, ◌≤◌, [], ◌∷◌, ◌++◌, ◌≡◌, ◌⊎◌, inl, inr, Bool-cases, refl, ap, ◌∙◌, Bytes,
  length, take, drop, leb, arith, true,
}
use iu7_pvs_cp.Client.Connection.{System}
use iu7_pvs_cp.Client.Messages.{tabulate, move_down, copy_down}

-- The system's `memcpy` copies as `memmove` does also when the regions overlap.
abbrev pub IsForward : System → Type 0
IsForward s =
    (buf : Bytes) (len n : ℕ)
    → len + n ≤ length buf
    → tabulate (s.overlapped buf len n) 0 n ≡ take n (drop len buf)

-- The regions do not overlap, or the system copies forward.
abbrev pub Copies : System → ℕ → ℕ → Type 0
Copies s len n = (n ≤ len) ⊎ IsForward s

leb_le : (n len : ℕ) → n ≤ len → leb n len ≡ true
leb_le n len h = ground arith

pub copy_down-move_down :
    (s : System) (buf : Bytes) (len n : ℕ)
    → Copies s len n
    → len + n ≤ length buf
    → copy_down s buf len n ≡ move_down buf len n
unfolding copy_down
copy_down-move_down s buf len n (inl h) l = rw (leb_le n len h) refl
copy_down-move_down s buf len n (inr f) l = elim (Bool-cases (leb n len)) [
  | inl e ↦ rw e refl
  | inr e ↦ rw e (ap (λ x. x ++ drop n buf) (f buf len n l))
]

abbrev pub byte_at : ℕ → Bytes → ℕ
byte_at i [] = 0
byte_at zero (x ∷ xs) = x
byte_at (suc i) (x ∷ xs) = byte_at i xs

-- Nothing lies behind an array, and `memcpy` copies forward.
abbrev pub quiet : System
quiet = record {
  behind_text = [];
  behind_buffer = λ n. [];
  behind_message = λ n. [];
  behind_num = λ n. [];
  overlapped = λ buf len n i. byte_at (len + i) buf;
}

tabulate-byte_at :
    (k n i : ℕ) (buf : Bytes)
    → k + n ≤ length buf
    → (f : ℕ → ℕ) → ((j : ℕ) → f (i + j) ≡ byte_at (k + j) buf)
    → tabulate f i n ≡ take n (drop k buf)
tabulate-byte_at k zero i buf l f e = refl
tabulate-byte_at (suc k) (suc n) i [] l f e = absurd (omega arith)
tabulate-byte_at (suc k) (suc n) i (x ∷ xs) l f e =
    tabulate-byte_at k (suc n) i xs (omega arith) f
      (λ j. let m : suc k + j ≡ suc (k + j) = omega arith in e j ∙ ap (λ m. byte_at m (x ∷ xs)) m)
tabulate-byte_at zero (suc n) i [] l f e = absurd (omega arith)
tabulate-byte_at zero (suc n) i (x ∷ xs) l f e =
    let head : f i ≡ x = ap f (omega arith) ∙ e 0 in
    let tail : tabulate f (i + 1) n ≡ take n xs =
      tabulate-byte_at 0 n (i + 1) xs (omega arith) f (λ j.
        let k : 0 + suc j ≡ suc (0 + j) = omega arith in
        ap f (omega arith) ∙ e (suc j) ∙ ap (λ m. byte_at m (x ∷ xs)) k) in
    ap (λ z. z ∷ tabulate f (i + 1) n) head ∙ ap (◌∷◌ x) tail

pub quiet-IsForward : IsForward quiet
quiet-IsForward buf len n l =
    tabulate-byte_at len n 0 buf l (λ i. byte_at (len + i) buf)
      (λ j. let k : len + (0 + j) ≡ len + j = omega arith in ap (λ m. byte_at m buf) k)
