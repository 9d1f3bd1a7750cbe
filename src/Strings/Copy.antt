-- ===== src/Strings/Copy.antt =====
-- The routines of uklib/string.c that write memory.
use cyanea.Prelude.{
  ℕ, zero, suc, ◌+◌, ◌-◌, ◌≤◌, ◌<◌, ◌≡◌, ◌≢◌, ◌⊎◌, refl, ◌∙◌, inl, inr, false, ◌&&◌, ◌||◌, List, [],
  ◌∷◌, ◌++◌, arith, Bool-cases, ltb, leb, ◌==◌, if◌then◌else◌, length, replicate, All, ok, fault,
}
use cyanea.Strings.{memcpy, memmove, copy_down, update, strncpy}

-- The byte at `j` after `n` bytes were copied from `src` to `dest`.
abbrev pub copied : ℕ → ℕ → ℕ → (ℕ → ℕ) → ℕ → ℕ
copied dest src n mem j = if leb dest j && ltb j (dest + n) then mem (src + (j - dest)) else mem j

-- Copying upwards is right where no byte is written before it is read.
memcpy_lem :
    (n dest src : ℕ) (mem : ℕ → ℕ) (j : ℕ)
    → (dest ≤ src) ⊎ (src + n ≤ dest)
    → memcpy dest src n mem j ≡ copied dest src n mem j
unfolding memcpy
memcpy_lem zero dest src mem j h = ground arith
memcpy_lem (suc n) dest src mem j h =
    memcpy_lem n (dest + 1) (src + 1) (update mem dest (mem src)) j (ground arith) ∙ grind arith

copy_down_lem :
    (n dest src : ℕ) (mem : ℕ → ℕ) (j : ℕ)
    → src ≤ dest
    → copy_down dest src n mem j ≡ copied dest src n mem j
unfolding copy_down
copy_down_lem zero dest src mem j h = ground arith
copy_down_lem (suc n) dest src mem j h =
    copy_down_lem n dest src (update mem (dest + n) (mem (src + n))) j h ∙ grind arith

-- `memmove` is right for every two ranges, however they overlap: each byte of the target is what
-- the byte of the source was before, and no other byte changes.
pub memmove_lem :
    (dest src n : ℕ) (mem : ℕ → ℕ) (j : ℕ)
    → memmove dest src n mem j
      ≡ (if leb dest j && ltb j (dest + n) then mem (src + (j - dest)) else mem j)
unfolding memmove
memmove_lem dest src n mem j = elim (Bool-cases (leb dest src || leb n (dest - src))) [
  | inl up ↦ rw up (memcpy_lem n dest src mem j (ground arith))
  | inr down ↦ rw down (copy_down_lem n dest src mem j (ground arith))
]

-- A byte of a string.
abbrev pub Bytes : List ℕ → Type 0
Bytes = All (λ c. c ≢ 0)

strncpy_fits :
    (src : List ℕ) (n : ℕ)
    → Bytes src
    → length src < n
    → strncpy src n ≡ ok (src ++ replicate (n - length src) 0)
unfolding strncpy
strncpy_fits src zero h k = absurd (omega arith)
strncpy_fits [] (suc n) h k = let all : suc n - 0 ≡ suc n = omega arith in rw all
strncpy_fits (c ∷ src) (suc n) (a, h) k =
    let more : (c == 0) ≡ false = ground arith in
    let left : suc n - suc (length src) ≡ n - length src = omega arith in
    rw (more, strncpy_fits src n h (omega arith), left)

strncpy_overflow : (src : List ℕ) (n : ℕ) → Bytes src → n ≤ length src → strncpy src n ≡ fault
unfolding strncpy
strncpy_overflow src zero h k = refl
strncpy_overflow [] (suc n) h k = absurd (omega arith)
strncpy_overflow (c ∷ src) (suc n) (a, h) k =
    let more : (c == 0) ≡ false = ground arith in rw (more, strncpy_overflow src n h (omega arith))

-- For a string of fewer than `n` bytes `strncpy` fills `n` bytes with the string and NULs; for any
-- other it clears memory far behind the target.
pub strncpy_lem :
    (src : List ℕ) (n : ℕ)
    → Bytes src
    → (length src < n → strncpy src n ≡ ok (src ++ replicate (n - length src) 0))
      × (n ≤ length src → strncpy src n ≡ fault)
strncpy_lem src n h = (strncpy_fits src n h, strncpy_overflow src n h)
