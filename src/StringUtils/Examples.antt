-- ===== src/StringUtils/Examples.antt =====
-- The theorems on common/src/string_utils.c at concrete strings.
use iu7_pvs_cp.Base.{◌≡◌, ◌++◌, refl, arith, Bytes, codes, strstr_crlf}
use iu7_pvs_cp.StringUtils.{strtrim, strcrlf}
use iu7_pvs_cp.StringUtils.Trim.{AllSpace, IsTrimmed, strtrim_lem}
use iu7_pvs_cp.StringUtils.Crlf.{strcrlf-eq-strstr_crlf}

strtrim_quit : strtrim (codes " \t QUIT \r") ≡ codes "QUIT"
unfolding strtrim
strtrim_quit = refl

strtrim_lem_example :
    (pre : Bytes) × (post : Bytes) × (codes " a b " ≡ pre ++ (strtrim (codes " a b ") ++ post))
    × AllSpace pre
    × AllSpace post
    × IsTrimmed (strtrim (codes " a b "))
strtrim_lem_example = strtrim_lem (codes " a b ")

strcrlf-eq-strstr_crlf_example : strcrlf (codes "A\r\n") ≡ strstr_crlf (codes "A\r\n")
strcrlf-eq-strstr_crlf_example =
    strcrlf-eq-strstr_crlf (codes "A\r\n") (λ e f. omega arith, (λ e f. omega arith, tt))
