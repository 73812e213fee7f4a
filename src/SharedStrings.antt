-- ===== src/SharedStrings.antt =====
-- common/src/shared_strings.c: the growing buffers of the client. `calloc` succeeds; what a
-- failure does is not modelled.
use iu7_pvs_cp.Base.{ℕ, ◌+◌, ◌++◌, ◌≡◌, refl, Bytes, length, take, take-length}

pub record Grown : Type 0 where
  pub str1 : Bytes
  pub len : ℕ

-- The two `memcpy` calls into fresh memory; NULL is a string of no bytes.
unfoldable pub concat_dynamic_strings : Bytes → Bytes → ℕ → ℕ → Grown
concat_dynamic_strings str1 str2 str1_len str2_len = record {
  str1 = take str1_len str1 ++ take str2_len str2;
  len = str1_len + str2_len;
}

-- With the lengths of both strings the result is their concatenation.
pub concat_dynamic_strings_lem :
    (a b : Bytes)
    → concat_dynamic_strings a b (length a) (length b)
      ≡ record { str1 = a ++ b; len = length a + length b }
unfolding concat_dynamic_strings
concat_dynamic_strings_lem a b = rw (take-length a) (rw (take-length b) refl)
