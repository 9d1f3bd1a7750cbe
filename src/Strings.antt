-- ===== src/Strings.antt =====
-- uklib/string.c. A C string is the list of its bytes, without the NUL that ends it; a buffer that
-- is written is the list of its bytes; memory, where the ranges may overlap, is a function from
-- addresses to bytes.
pub mod Compare
pub mod Copy
mod Tests
use mathlib.Core.Option
use cyanea.Prelude.{
  ℕ, zero, suc, ◌+◌, ◌-◌, ◌%◌, Bool, true, false, not, ◌&&◌, ◌||◌, List, [], ◌∷◌, ◌++◌, Option,
  none, some, ltb, leb, ◌==◌, if◌then◌else◌, length, replicate, ℤ, pos, sub_ℕ, Run, ok, fault,
  ◌>>=◌,
}

-- The difference of the first bytes that differ, or of the two NULs.
unfoldable pub strcmp : List ℕ → List ℕ → ℤ
strcmp [] [] = sub_ℕ 0 0
strcmp [] (y ∷ ys) = sub_ℕ 0 y
strcmp (x ∷ xs) [] = sub_ℕ x 0
strcmp (x ∷ xs) (y ∷ ys) =
    let rest = strcmp xs ys in if x == y && not (x == 0) then rest else sub_ℕ x y

unfoldable pub strncmp : List ℕ → List ℕ → ℕ → ℤ
strncmp xs ys zero = pos 0
strncmp [] [] (suc n) = sub_ℕ 0 0
strncmp [] (y ∷ ys) (suc n) = sub_ℕ 0 y
strncmp (x ∷ xs) [] (suc n) = sub_ℕ x 0
strncmp (x ∷ xs) (y ∷ ys) (suc n) =
    let rest = strncmp xs ys n in
    let rest' = if n == 0 then sub_ℕ x y else rest in
    if not (x == y) || x == 0 then sub_ℕ x y else rest'

unfoldable pub strlen : List ℕ → ℕ
strlen [] = 0
strlen (x ∷ xs) = let rest = suc (strlen xs) in if x == 0 then 0 else rest

unfoldable pub strnlen : List ℕ → ℕ → ℕ
strnlen xs zero = 0
strnlen [] (suc n) = 0
strnlen (x ∷ xs) (suc n) = let rest = suc (strnlen xs n) in if x == 0 then 0 else rest

-- Where the byte stands, `none` for NULL. The NUL that ends the string is found too.
unfoldable pub strchr : List ℕ → ℕ → Option ℕ
strchr [] c = if c % 256 == 0 then some 0 else none
strchr (x ∷ xs) c =
    let rest : Option ℕ = elim (strchr xs c) [ none ↦ none | some i ↦ some (suc i) ] in
    if x == c % 256 then some 0 else if x == 0 then none else rest

is_zero : ℤ → Bool
is_zero (pos n) = n == 0
is_zero _ = false

-- The loop of `strnstr` for a needle that is not empty: `n` bytes of `str1` are left. Behind the
-- NUL of `str1` it would read outside the string.
find_from : List ℕ → List ℕ → ℕ → Run (Option ℕ)
find_from [] str2 n = if ltb (length str2) n then fault else ok none
find_from (x ∷ xs) str2 n =
    let rest = find_from xs str2 (n - 1) >>= λ at. ok (Option.map suc at) in
    if ltb n (length str2)
    then ok none
    else if is_zero (strncmp (x ∷ xs) str2 (length str2))
    then ok (some 0)
    else rest

unfoldable pub strnstr : List ℕ → List ℕ → ℕ → Run (Option ℕ)
unfolding find_from is_zero strncmp strlen
strnstr str1 str2 n = if strlen str2 == 0 then ok (some 0) else find_from str1 str2 n

unfoldable pub strstr : List ℕ → List ℕ → Run (Option ℕ)
unfolding strnstr strlen
strstr str1 str2 = strnstr str1 str2 (strlen str1)

-- The bytes written to `dest`. Where no NUL is met in `n` bytes, `n--` has taken the count from 0
-- to 2^64 - 1 when `memset` gets it.
unfoldable pub strncpy : List ℕ → ℕ → Run (List ℕ)
strncpy src zero = fault
strncpy [] (suc n) = ok (0 ∷ replicate n 0)
strncpy (ch ∷ src) (suc n) =
    let rest = strncpy src n >>= λ bytes. ok (ch ∷ bytes) in
    if ch == 0 then ok (0 ∷ replicate n 0) else rest

-- The bytes that `strcpy` and `strcat` leave in `dest`.
unfoldable pub strcpy : List ℕ → List ℕ
strcpy [] = 0 ∷ []
strcpy (ch ∷ src) = let rest = ch ∷ strcpy src in if ch == 0 then 0 ∷ [] else rest

unfoldable pub strcat : List ℕ → List ℕ → List ℕ
unfolding strcpy
strcat dest src = dest ++ strcpy src

-- The loop stops at the first two bytes that are equal.
unfoldable pub memcmp : List ℕ → List ℕ → ℕ → ℤ → ℤ
memcmp xs ys zero res = res
memcmp [] ys (suc n) res = res
memcmp (x ∷ xs) [] (suc n) res = res
memcmp (x ∷ xs) (y ∷ ys) (suc n) res =
    let rest = memcmp xs ys n (sub_ℕ x y) in if x == y then pos 0 else rest

-- A byte of memory is written.
abbrev pub update : (ℕ → ℕ) → ℕ → ℕ → ℕ → ℕ
update mem a v x = if x == a then v else mem x

unfoldable pub memcpy : ℕ → ℕ → ℕ → (ℕ → ℕ) → ℕ → ℕ
memcpy dest src zero mem = mem
memcpy dest src (suc n) mem = memcpy (dest + 1) (src + 1) n (update mem dest (mem src))

unfoldable pub memset : ℕ → ℕ → ℕ → (ℕ → ℕ) → ℕ → ℕ
memset s c zero mem = mem
memset s c (suc n) mem = memset (s + 1) c n (update mem s (c % 256))

-- The loop of `memmove` from the last byte down.
copy_down : ℕ → ℕ → ℕ → (ℕ → ℕ) → ℕ → ℕ
copy_down d s zero mem = mem
copy_down d s (suc n) mem = copy_down d s n (update mem (d + n) (mem (s + n)))

unfoldable pub memmove : ℕ → ℕ → ℕ → (ℕ → ℕ) → ℕ → ℕ
unfolding copy_down memcpy
memmove dest src n mem =
    if leb dest src || leb n (dest - src) then memcpy dest src n mem else copy_down dest src n mem
