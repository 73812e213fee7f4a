-- ===== src/Client/Batch.antt =====
-- `batch_files_for_processes` of client/src/client.c: the files are dealt out to processes.
use iu7_pvs_cp.Base.{
  ℕ, zero, suc, ◌+◌, ◌-◌, ◌*◌, ◌≤◌, ◌<◌, Bool, true, false, List, [], ◌∷◌, ◌++◌, ◌≡◌, ◌⊎◌, refl, ap,
  sym, ◌∙◌, subst, length, ltb, leb, ◌==◌, Bool-cases, inl, inr, if◌then◌else◌, arith, lt→ltb,
  ltb→lt, not-ltb→le,
}
use Prim.Native.Nat.{◌/◌, ◌%◌}
use native.Mathlib.Nat.{div-add-mod, mod-lt, suc-mul, mul-suc}

-- The files `start` to `end` of one process.
pub record Range : Type 0 where
  pub start : ℕ
  pub end : ℕ

-- How the function ends: with -1, in a write behind `pids`, or with 0. Always with the ranges of
-- the processes that were started, the first at the front.
pub data Batched : Type 0 where
  fork_failed pids_overflow finished : List Range → Batched
  out_of_fuel : Batched

-- One more process was started.
abbrev started : Range → Batched → Batched
started r (fork_failed rs) = fork_failed (r ∷ rs)
started r (pids_overflow rs) = pids_overflow (r ∷ rs)
started r (finished rs) = finished (r ∷ rs)
started r out_of_fuel = out_of_fuel

pack_size : ℕ → ℕ → ℕ
pack_size mails_count processes_count =
    let pack = mails_count / processes_count in
    if mails_count % processes_count == 0 then pack else pack + 1

-- The last file of the pack that begins with file `start`.
last_of : ℕ → ℕ → ℕ → ℕ
last_of start pack mails_count =
    if leb mails_count (start + pack) then mails_count - 1 else start + pack - 1

-- The loop; `fork i` tells if the i-th fork succeeds, and `ind` is the next entry of `pids`.
batch_loop : ℕ → (ℕ → Bool) → ℕ → ℕ → ℕ → ℕ → ℕ → Batched
unfolding last_of
batch_loop zero fork processes_count mails_count pack ind end = out_of_fuel
batch_loop (suc fuel) fork processes_count mails_count pack ind end =
    let last = last_of end pack mails_count in
    let rest = batch_loop fuel fork processes_count mails_count pack (ind + 1) (last + 1) in
    let r : Range = record { start = end; end = last } in
    if ltb end mails_count
    then if fork ind
      then if ltb ind processes_count then started r rest else pids_overflow (r ∷ [])
      else fork_failed []
    else finished []

-- `processes_count` is not 0.
unfoldable pub batch_files_for_processes : ℕ → (ℕ → Bool) → ℕ → ℕ → Batched
unfolding batch_loop pack_size
batch_files_for_processes fuel fork mails_count processes_count =
    batch_loop fuel fork processes_count mails_count (pack_size mails_count processes_count) 0 0

-- The numbers `i` to `i + n - 1`.
abbrev pub upto : ℕ → ℕ → List ℕ
upto i zero = []
upto i (suc n) = i ∷ upto (i + 1) n

-- The files of a range, as `process_mail_files` goes through them.
abbrev pub range_files : Range → List ℕ
range_files r = upto r.start (r.end + 1 - r.start)

abbrev pub all_files : List Range → List ℕ
all_files [] = []
all_files (r ∷ rs) = range_files r ++ all_files rs

-- The function finished, with at most `room` processes that work on the files from `start` on,
-- each file once and in order.
pub data Covers (mails_count room start : ℕ) : Batched → Type 0 where
  covers :
      (rs : List Range)
      → all_files rs ≡ upto start (mails_count - start)
      → length rs ≤ room
      → Covers mails_count room start (finished rs)

upto-split : (i n m : ℕ) → upto i n ++ upto (i + n) m ≡ upto i (n + m)
upto-split i zero m = ap2 (omega arith) (omega arith)
  where
    ap2 : {a b c d : ℕ} → a ≡ b → c ≡ d → upto a c ≡ upto b d
    ap2 e f = cc
upto-split i (suc n) m =
    let a : i + suc n ≡ i + 1 + n = omega arith in
    let b : suc n + m ≡ suc (n + m) = omega arith in
    rw a (rw b (ap (◌∷◌ i) (upto-split (i + 1) n m)))

-- A pack ends with the last file or has its full size.
last_of-bounds :
    (start pack n : ℕ)
    → start < n
    → 0 < pack
    → (start ≤ last_of start pack n)
      × (last_of start pack n < n)
      × ((n ≤ last_of start pack n + 1) ⊎ (start + pack ≡ last_of start pack n + 1))
unfolding last_of
last_of-bounds start pack n h p = elim (Bool-cases (leb n (start + pack))) [
  | inl e ↦ rw e (omega arith, omega arith, inl (omega arith))
  | inr e ↦
      let f = leb-false n (start + pack) e in rw e (omega arith, omega arith, inr (omega arith))
]
  where
    leb-false : (a b : ℕ) → leb a b ≡ false → b < a
    leb-false a b e = ground arith

started-Covers :
    (start last n room : ℕ) (b : Batched)
    → start ≤ last
    → last < n
    → Covers n room (last + 1) b
    → Covers n (suc room) start (started (record { start = start; end = last }) b)
started-Covers start last n room _ h l (covers rs e k) =
    covers _ (ap (λ x. upto start (last + 1 - start) ++ x) e ∙ joined) (omega arith)
  where
    joined :
        upto start (last + 1 - start) ++ upto (last + 1) (n - (last + 1)) ≡ upto start (n - start)
    joined =
        let a : last + 1 ≡ start + (last + 1 - start) = omega arith in
        let b : last + 1 - start + (n - (last + 1)) ≡ n - start = omega arith in
        subst
          (λ k. upto start (last + 1 - start) ++ upto k (n - (last + 1)) ≡ upto start (n - start))
          (sym a) (upto-split start (last + 1 - start) (n - (last + 1)) ∙ ap (upto start) b)

-- `room` entries of `pids` are left, and the packs they hold are enough.
batch_loop-Covers :
    (fuel : ℕ) (fork : ℕ → Bool) (p n pack ind room end : ℕ)
    → ((i : ℕ) → fork i ≡ true)
    → 0 < pack
    → ind + room ≡ p
    → n ≤ end + room * pack
    → n - end < fuel
    → Covers n room end (batch_loop fuel fork p n pack ind end)
unfolding batch_loop
batch_loop-Covers zero fork p n pack ind room end forks hp hi hn hf = absurd (omega arith)
batch_loop-Covers (suc fuel) fork p n pack ind room end forks hp hi hn hf =
    elim (Bool-cases (ltb end n)) [
      | inl e ↦ rw e (
          rw (forks ind) (
            more
              (λ r i m u.
                batch_loop-Covers fuel fork p n pack (ind + 1) r (last_of end pack n + 1) forks hp i
                  m u)
              room hi hn (ltb→lt end n e)))
      | inr e ↦ rw e (none_left (not-ltb→le end n e))
    ]
  where
    none_left : n ≤ end → Covers n room end (finished [])
    none_left h = let e : 0 ≡ n - end = omega arith in covers [] (ap (upto end) e) (omega arith)

    last : ℕ
    last = last_of end pack n

    Again : Type 0
    Again =
        (room : ℕ)
        → ind + 1 + room ≡ p
        → n ≤ last + 1 + room * pack
        → n - (last + 1) < fuel
        → Covers n room (last + 1) (batch_loop fuel fork p n pack (ind + 1) (last + 1))

    more :
        Again
        → (room : ℕ) → ind + room ≡ p
        → n ≤ end + room * pack
        → end < n
        → Covers n room end (
            if ltb ind p
            then started
                (record { start = end; end = last })
                (batch_loop fuel fork p n pack (ind + 1) (last + 1))
            else pids_overflow (record { start = end; end = last } ∷ []))
    more again zero hi hn h = absurd (omega arith)
    more again (suc room) hi hn h =
        let b = last_of-bounds end pack n h hp in
        let l : last < n = b.1 in
        let g : end ≤ last = b.0 in
        let f : n ≤ last + 1 + room * pack = enough b.2 hn in
        rw (lt→ltb ind p (omega arith))
          (started-Covers end last n room _ g l (again room (omega arith) f (omega arith)))
      where
        enough :
            ((n ≤ last + 1) ⊎ (end + pack ≡ last + 1))
            → n ≤ end + suc room * pack
            → n ≤ last + 1 + room * pack
        enough (inl e) k = omega arith
        enough (inr e) k = omega (arith, suc-mul room pack)

zero-of : (a : ℕ) → (a == 0) ≡ true → a ≡ 0
zero-of a e = ground arith

factor-positive : (a b : ℕ) → 0 < a * b → 0 < b
factor-positive a zero h = absurd (omega arith)
factor-positive a (suc b) h = omega arith

pack_size-positive : (n p : ℕ) → 0 < p → 0 < n → 0 < pack_size n p
unfolding pack_size
pack_size-positive n p h k =
    let d = div-add-mod n p in
    elim (Bool-cases (n % p == 0)) [
      | inl e ↦ rw e (factor-positive p (n / p) (omega (arith, zero-of (n % p) e)))
      | inr e ↦ rw e (omega arith)
    ]

pack_size-enough : (n p : ℕ) → 0 < p → n ≤ p * pack_size n p
unfolding pack_size
pack_size-enough n p h =
    let d = div-add-mod n p in
    elim (Bool-cases (n % p == 0)) [
      | inl e ↦ rw e (omega (arith, zero-of (n % p) e))
      | inr e ↦ rw e (enough (n / p) (n % p) d (mod-lt n h))
    ]
  where
    enough : (q r : ℕ) → p * q + r ≡ n → r < p → n ≤ p * (q + 1)
    enough q r d l = let e : q + 1 ≡ suc q = omega arith in rw e (omega (arith, mul-suc p q))

-- When every `fork` succeeds, `processes_count` is not 0 and the fuel is more than the number of
-- files, `batch_files_for_processes` starts at most `processes_count` processes, which is what
-- `pids` has room for, and their ranges are all files from the first to the last, each once and
-- in order.
pub batch_files_for_processes-Covers :
    (fuel : ℕ) (fork : ℕ → Bool) (mails_count processes_count : ℕ)
    → ((i : ℕ) → fork i ≡ true)
    → 0 < processes_count
    → mails_count < fuel
    → Covers mails_count processes_count 0
        (batch_files_for_processes fuel fork mails_count processes_count)
unfolding batch_files_for_processes
batch_files_for_processes-Covers (suc fuel) fork zero p forks hp hf = covers [] refl (omega arith)
batch_files_for_processes-Covers fuel fork (suc n) p forks hp hf =
    batch_loop-Covers fuel fork p (suc n) (pack_size (suc n) p) 0 p 0 forks
      (pack_size-positive (suc n) p hp (omega arith)) (omega arith)
      (subst (λ k. suc n ≤ k) (omega arith) (pack_size-enough (suc n) p hp)) (omega arith)
batch_files_for_processes-Covers zero fork zero p forks hp hf = absurd (omega arith)
