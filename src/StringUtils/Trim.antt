-- ===== src/StringUtils/Trim.antt =====
-- `strtrim` removes exactly the blank ends.
use iu7_pvs_cp.Base.{
  ℕ, ◌+◌, ◌-◌, ◌≤◌, ◌<◌, true, false, ◌==◌, if◌then◌else◌, [], ◌∷◌, ◌++◌, ◌≡◌, ◌⊎◌, refl, sym, ap,
  ◌∙◌, arith, Bytes, is_space, length, take, drop, length-append, take-length-append,
  drop-length-append, append_assoc, Bool-cases, inl, inr,
}
use iu7_pvs_cp.StringUtils.{Span, trim_step, trim_loop, strtrim}

abbrev pub AllSpace : Bytes → Type 0
AllSpace [] = Unit {0}
AllSpace (c ∷ cs) = (is_space c ≡ true) × AllSpace cs

-- No blank at either end.
pub data IsTrimmed : Bytes → Type 0 where
  empty : IsTrimmed []
  single : (c : ℕ) → is_space c ≡ false → IsTrimmed (c ∷ [])
  ends :
      (c : ℕ) (m : Bytes) (d : ℕ)
      → is_space c ≡ false
      → is_space d ≡ false
      → IsTrimmed (c ∷ (m ++ d ∷ []))

trim_loop-append :
    (xs ys : Bytes) (i : ℕ) (s : Span)
    → trim_loop (xs ++ ys) i s ≡ trim_loop ys (i + length xs) (trim_loop xs i s)
unfolding trim_loop
trim_loop-append [] ys i s = ap (λ k. trim_loop ys k s) (omega arith)
trim_loop-append (x ∷ xs) ys i s =
    trim_loop-append xs ys (i + 1) (trim_step x i s)
    ∙ ap (λ k. trim_loop ys k (trim_loop xs (i + 1) (trim_step x i s))) (omega arith)

trim_step-space : (c i : ℕ) (s : Span) → is_space c ≡ true → trim_step c i s ≡ s
unfolding trim_step
trim_step-space c i s h = rw h

trim_step-ne_space :
    (c i : ℕ) (s : Span)
    → is_space c ≡ false
    → trim_step c i s ≡ record { start = (if s.start == s.end then i else s.start); end = i + 1 }
unfolding trim_step
trim_step-ne_space c i s h = rw h

trim_loop-AllSpace : (xs : Bytes) (i : ℕ) (s : Span) → AllSpace xs → trim_loop xs i s ≡ s
unfolding trim_loop
trim_loop-AllSpace [] i s h = refl
trim_loop-AllSpace (x ∷ xs) i s h =
    rw (trim_step-space x i s h.0) (trim_loop-AllSpace xs (i + 1) s h.1)

-- Once a byte that is no blank was met, `start` stays.
record Started (n i : ℕ) (s : Span) : Type 0 where
  same : s.start ≡ n
  below : n < s.end
  read : s.end ≤ i

trim_step-Started :
    {n : ℕ} (c i : ℕ) (s : Span) → Started n i s → Started n (i + 1) (trim_step c i s)
unfolding trim_step
trim_step-Started c i s h = ground arith

trim_loop-Started :
    {n : ℕ} (xs : Bytes) (i : ℕ) (s : Span)
    → Started n i s
    → Started n (i + length xs) (trim_loop xs i s)
unfolding trim_loop
trim_loop-Started [] i s h = ground arith
trim_loop-Started (x ∷ xs) i s h =
    ground (arith, trim_loop-Started xs (i + 1) (trim_step x i s) (trim_step-Started x i s h))

abbrev none_yet : Span
none_yet = record { start = 0; end = 0 }

abbrev started : ℕ → Span
started n = record { start = n; end = n + 1 }

trim_loop-ends :
    (n c : ℕ) (m : Bytes) (d : ℕ)
    → is_space c ≡ false
    → is_space d ≡ false
    → trim_loop (c ∷ (m ++ d ∷ [])) n none_yet ≡ record { start = n; end = n + 1 + length m + 1 }
unfolding trim_loop
trim_loop-ends n c m d h k =
    ap (λ s. trim_loop (m ++ d ∷ []) (n + 1) s) (trim_step-ne_space c n none_yet h)
    ∙ trim_loop-append m (d ∷ []) (n + 1) (started n)
    ∙ trim_step-ne_space d (n + 1 + length m) (trim_loop m (n + 1) (started n)) k
    ∙ ground (arith, trim_loop-Started {n = n} m (n + 1) (started n) (omega arith))

trim_loop-IsTrimmed :
    {mid : Bytes} (n : ℕ)
    → IsTrimmed mid
    → ((trim_loop mid n none_yet).end - (trim_loop mid n none_yet).start ≡ length mid)
      × (((trim_loop mid n none_yet).start ≡ n) ⊎ (mid ≡ []))
unfolding trim_loop
trim_loop-IsTrimmed n empty = (refl, inr refl)
trim_loop-IsTrimmed n (single c h) = ground (arith, trim_step-ne_space c n none_yet h)
trim_loop-IsTrimmed n (ends c m d h k) =
    ground (arith, trim_loop-ends n c m d h k, length-append m (d ∷ []))

cut-middle :
    (pre mid post : Bytes) (s : Span)
    → s.end - s.start ≡ length mid
    → (s.start ≡ length pre) ⊎ (mid ≡ [])
    → take (s.end - s.start) (drop s.start (pre ++ (mid ++ post))) ≡ mid
cut-middle pre mid post s h (inl e) =
    rw (h, e)
      (ap (take (length mid)) (drop-length-append pre (mid ++ post)) ∙ take-length-append mid post)
cut-middle pre mid post s h (inr e) = rw (h, e) refl

-- `strtrim` of a string that is blanks, a part with no blank at its ends, and blanks again is
-- that part.
pub strtrim_middle :
    (pre mid post : Bytes)
    → AllSpace pre
    → IsTrimmed mid
    → AllSpace post
    → strtrim (pre ++ (mid ++ post)) ≡ mid
unfolding strtrim
strtrim_middle pre mid post h t k =
    let e : trim_loop (pre ++ (mid ++ post)) 0 none_yet ≡ trim_loop mid (length pre) none_yet =
      trim_loop-append pre (mid ++ post) 0 none_yet
      ∙ rw (trim_loop-AllSpace pre 0 none_yet h) (
          rw trim_loop-append
            (rw trim_loop-AllSpace (ap (λ j. trim_loop mid j none_yet) (omega arith)))) in
    rw e (
      cut-middle pre mid post _ (trim_loop-IsTrimmed (length pre) t).0
        (trim_loop-IsTrimmed (length pre) t).1)

-- A string taken apart into blanks, a part with no blank at its ends, and blanks.
record Parts (s : Bytes) : Type 0 where
  pre : Bytes
  mid : Bytes
  post : Bytes
  whole : s ≡ pre ++ (mid ++ post)
  blank_pre : AllSpace pre
  trimmed : IsTrimmed mid
  blank_post : AllSpace post

AllSpace-append : (xs ys : Bytes) → AllSpace xs → AllSpace ys → AllSpace (xs ++ ys)
AllSpace-append [] ys h k = k
AllSpace-append (x ∷ xs) ys h k = (h.0, AllSpace-append xs ys h.1 k)

Parts-cons :
    (c : ℕ) (pre mid post : Bytes)
    → is_space c ≡ false
    → AllSpace pre
    → IsTrimmed mid
    → AllSpace post
    → Parts (c ∷ (pre ++ (mid ++ post)))
Parts-cons c pre mid post h p empty q = record {
  pre = [];
  mid = c ∷ [];
  post = pre ++ post;
  whole = refl;
  blank_pre = tt;
  trimmed = single c h;
  blank_post = AllSpace-append pre post p q;
}
Parts-cons c pre mid post h p (single d k) q = record {
  pre = [];
  mid = c ∷ (pre ++ d ∷ []);
  post = post;
  whole = ap (◌∷◌ c) (sym (append_assoc pre (d ∷ []) post));
  blank_pre = tt;
  trimmed = ends c pre d h k;
  blank_post = q;
}
Parts-cons c pre mid post h p (ends b m d j k) q = record {
  pre = [];
  mid = c ∷ ((pre ++ b ∷ m) ++ d ∷ []);
  post = post;
  whole = simp append_assoc;
  blank_pre = tt;
  trimmed = ends c (pre ++ b ∷ m) d h k;
  blank_post = q;
}

Parts-of : (s : Bytes) → Parts s
Parts-of [] = record {
  pre = [];
  mid = [];
  post = [];
  whole = refl;
  blank_pre = tt;
  trimmed = empty;
  blank_post = tt;
}
Parts-of (c ∷ cs) =
    let rest = Parts-of cs in
    elim (Bool-cases (is_space c)) [
      | inl e ↦ record {
        pre = c ∷ rest.pre;
        mid = rest.mid;
        post = rest.post;
        whole = ap (◌∷◌ c) rest.whole;
        blank_pre = (e, rest.blank_pre);
        trimmed = rest.trimmed;
        blank_post = rest.blank_post;
      }
      | inr e ↦
          rw rest.whole
            (Parts-cons c rest.pre rest.mid rest.post e rest.blank_pre rest.trimmed rest.blank_post)
    ]

-- Every string is blanks, then what `strtrim` returns, then blanks, and what `strtrim` returns
-- has no blank at either end.
pub strtrim_lem :
    (s : Bytes)
    → (pre : Bytes) × (post : Bytes) × (s ≡ pre ++ (strtrim s ++ post))
      × AllSpace pre
      × AllSpace post
      × IsTrimmed (strtrim s)
strtrim_lem s =
    let p = Parts-of s in
    let e : strtrim s ≡ p.mid =
      ap strtrim p.whole ∙ strtrim_middle p.pre p.mid p.post p.blank_pre p.trimmed p.blank_post in
    (p.pre, p.post, rw e p.whole, p.blank_pre, p.blank_post, rw e p.trimmed)
