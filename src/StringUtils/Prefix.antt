-- ===== src/StringUtils/Prefix.antt =====
-- What `strstartswith` decides.
use iu7_pvs_cp.Base.{
  ◌≡◌, ◌↔◌, refl, ap, ◌∙◌, true, false, [], ◌∷◌, ◌++◌, map, arith, Bytes, to_lower,
}
use iu7_pvs_cp.StringUtils.{strstartswith}

strstartswith_sound :
    (str prefix : Bytes)
    → strstartswith str prefix false ≡ true
    → (rest : Bytes) × (str ≡ prefix ++ rest)
unfolding strstartswith
strstartswith_sound (c ∷ cs) (p ∷ ps) h =
    let (rest, e) = strstartswith_sound cs ps (ground arith) in (rest, ground arith)
strstartswith_sound str [] h = (str, refl)
strstartswith_sound [] (p ∷ ps) h = absurd (cc)

strstartswith_complete : (prefix rest : Bytes) → strstartswith (prefix ++ rest) prefix false ≡ true
unfolding strstartswith
strstartswith_complete [] [] = refl
strstartswith_complete [] (c ∷ rest) = refl
strstartswith_complete (p ∷ ps) rest = ground (arith, strstartswith_complete ps rest)

-- With `ignore_case` off, `strstartswith` says exactly whether the string begins with the
-- prefix.
pub strstartswith_iff :
    (str prefix : Bytes)
    → (strstartswith str prefix false ≡ true) ↔ ((rest : Bytes) × (str ≡ prefix ++ rest))
strstartswith_iff str prefix = (
  strstartswith_sound str prefix,
  λ w. ap (λ s. strstartswith s prefix false) w.1 ∙ strstartswith_complete prefix w.0,
)

-- With `ignore_case` on, `strstartswith` is the same test on the lower-case strings.
pub strstartswith_ignore_case :
    (str prefix : Bytes)
    → strstartswith str prefix true ≡ strstartswith (map to_lower str) (map to_lower prefix) false
unfolding strstartswith
strstartswith_ignore_case (c ∷ cs) (p ∷ ps) = ground (arith, strstartswith_ignore_case cs ps)
strstartswith_ignore_case [] [] = refl
strstartswith_ignore_case (c ∷ cs) [] = refl
strstartswith_ignore_case [] (p ∷ ps) = refl
