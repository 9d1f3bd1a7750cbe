-- ===== src/Strings/Tests.antt =====
-- Runs of uklib/string.c, and its theorems at inputs that meet their hypotheses.
use cyanea.Prelude.{
  ℕ, ◌-◌, ◌≡◌, ◌↔◌, ◌<◌, ◌≤◌, refl, List, [], ◌∷◌, ◌++◌, some, none, arith, ok, fault, length, take,
  replicate, pos,
}
use cyanea.Strings.{strcmp, strnlen, strstr, strchr, strncpy, memcmp, memmove}
use cyanea.Strings.Compare.{strcmp_iff, strnlen_lem, memcmp_equal_byte}
use cyanea.Strings.Copy.{memmove_lem, strncpy_lem}

abbrev abc : List ℕ
abc = b'a' ∷ b'b' ∷ b'c' ∷ []

-- Two ranges that differ in the second byte compare as equal.
memcmp_runs : memcmp abc (b'a' ∷ b'x' ∷ b'c' ∷ []) 3 (pos 0) ≡ pos 0
unfolding memcmp
memcmp_runs = refl

strstr_runs :
    (strstr abc (b'b' ∷ b'c' ∷ []) ≡ ok (some 1)) × (strstr abc (b'c' ∷ b'b' ∷ []) ≡ ok none)
unfolding strstr
strstr_runs = (refl, refl)

strchr_runs : (strchr abc b'c' ≡ some 2) × (strchr abc 0 ≡ some 3) × (strchr abc b'z' ≡ none)
unfolding strchr
strchr_runs = (refl, refl, refl)

strcmp_iff_example : (strcmp abc abc ≡ pos 0) ↔ (abc ≡ abc)
strcmp_iff_example = strcmp_iff abc abc (omega arith) (omega arith)

strnlen_lem_example : strnlen abc 2 ≡ length (take 2 abc)
strnlen_lem_example = strnlen_lem abc 2 (omega arith)

memcmp_equal_byte_example : memcmp (1 ∷ 7 ∷ 2 ∷ []) (3 ∷ 7 ∷ 4 ∷ []) 3 (pos 0) ≡ pos 0
memcmp_equal_byte_example =
    memcmp_equal_byte (1 ∷ []) (3 ∷ []) (2 ∷ []) (4 ∷ []) 7 3 refl (omega arith)

memmove_lem_example : memmove 12 10 5 (λ a. a) 13 ≡ 11
memmove_lem_example = memmove_lem 12 10 5 (λ a. a) 13

strncpy_lem_example :
    (length abc < 5 → strncpy abc 5 ≡ ok (abc ++ replicate (5 - length abc) 0))
    × (5 ≤ length abc → strncpy abc 5 ≡ fault)
strncpy_lem_example = strncpy_lem abc 5 (omega arith)
