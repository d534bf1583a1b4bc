-- ===== src/Libc/Strings/Tests.antt =====
-- Runs of the string functions on "abc" and "abcab".
use ee461s_projects.Common.{ℕ, ◌≡◌, refl, some, List, [], ◌∷◌, arith}
use ee461s_projects.Libc.Strings.{
  strlen, strlen_from, strcmp, memcmp, strstr, strstr_from, strchr, strchr_from, strspn, span_from,
  strlcpy, strlcat, put, negative,
}
use ee461s_projects.Libc.Strings.Texts.{NoNul, c_string}
use ee461s_projects.Libc.Strings.Copies.{strlcpy_lem}

abbrev abc : List ℕ
abc = 97 ∷ 98 ∷ 99 ∷ []

abbrev abcab : List ℕ
abcab = 97 ∷ 98 ∷ 99 ∷ 97 ∷ 98 ∷ []

abc-NoNul : NoNul abc
abc-NoNul = (omega arith, (omega arith, (omega arith, tt)))

strcmp_run : strcmp (c_string abc []) (c_string abcab []) ≡ some negative
unfolding strcmp
strcmp_run = refl

strstr_run : strstr (c_string abcab []) (98 ∷ 0 ∷ []) ≡ some (some 1)
unfolding strstr strstr_from strlen strlen_from memcmp
strstr_run = refl

strspn_run : strspn (c_string abcab []) (97 ∷ 98 ∷ 0 ∷ []) ≡ some 2
unfolding strspn span_from strchr strchr_from
strspn_run = refl

strlcat_run : strlcat (97 ∷ 0 ∷ 7 ∷ 7 ∷ []) (c_string abc []) 3 ≡ some (4, 97 ∷ 97 ∷ 0 ∷ 7 ∷ [])
unfolding strlcat strlen strlen_from put
strlcat_run = refl

strlcpy_lem_example :
    strlcpy (9 ∷ 9 ∷ 9 ∷ 9 ∷ []) (c_string abc []) 3 ≡ some (3, 97 ∷ 98 ∷ 0 ∷ 9 ∷ [])
strlcpy_lem_example =
    strlcpy_lem (9 ∷ 9 ∷ 9 ∷ 9 ∷ []) abc [] 3 abc-NoNul (omega arith) (omega arith)
