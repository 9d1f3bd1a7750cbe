-- ===== src/Strings/Compare.antt =====
-- The routines of uklib/string.c that compare.
use cyanea.Prelude.{
  ℕ, zero, suc, ◌<◌, ◌≡◌, ◌↔◌, refl, sym, subst, inl, inr, true, false, not, ◌&&◌, List, [], ◌∷◌,
  ◌++◌, arith, Bool-cases, ◌==◌, length, take, ℤ, pos, sub_ℕ,
}
use cyanea.Strings.{strcmp, strnlen, memcmp}
use cyanea.Strings.Copy.{Bytes}

sub-zero : (a b : ℕ) → sub_ℕ a b ≡ pos 0 → a ≡ b
sub-zero a b h = ground arith

strcmp-eq : (s t : List ℕ) → Bytes s → Bytes t → strcmp s t ≡ pos 0 → s ≡ t
unfolding strcmp
strcmp-eq [] [] hs ht e = refl
strcmp-eq [] (y ∷ ys) hs (h, ht) e = absurd (h (sym (sub-zero 0 y e)))
strcmp-eq (x ∷ xs) [] (h, hs) ht e = absurd (h (sub-zero x 0 e))
strcmp-eq (x ∷ xs) (y ∷ ys) (h, hs) (k, ht) e = elim (Bool-cases (x == y && not (x == 0))) [
  | inl same ↦
      let tails = strcmp-eq xs ys hs ht (rw same at e) in
      let heads : x ≡ y = ground arith in λ i. heads i ∷ tails i
  | inr other ↦ let heads : x ≡ y = sub-zero x y (rw other at e) in absurd (ground arith)
]

strcmp_self : (s : List ℕ) → Bytes s → strcmp s s ≡ pos 0
unfolding strcmp
strcmp_self [] h = refl
strcmp_self (x ∷ xs) (h, hs) =
    let same : (x == x && not (x == 0)) ≡ true = ground arith in rw same (strcmp_self xs hs)

-- `strcmp` returns 0 exactly for equal strings.
pub strcmp_iff : (s t : List ℕ) → Bytes s → Bytes t → (strcmp s t ≡ pos 0) ↔ (s ≡ t)
strcmp_iff s t hs ht =
    (strcmp-eq s t hs ht, λ e. subst (λ u. strcmp s u ≡ pos 0) e (strcmp_self s hs))

-- `strnlen` is the length of the string, as far as `n` goes.
pub strnlen_lem : (s : List ℕ) (n : ℕ) → Bytes s → strnlen s n ≡ length (take n s)
unfolding strnlen
strnlen_lem s zero h = refl
strnlen_lem [] (suc n) h = refl
strnlen_lem (x ∷ xs) (suc n) (h, hs) =
    let more : (x == 0) ≡ false = ground arith in rw (more, strnlen_lem xs n hs)

memcmp_res :
    (pre xs ys : List ℕ) (c n : ℕ) (res : ℤ) (pre' : List ℕ)
    → length pre ≡ length pre'
    → length pre < n
    → memcmp (pre ++ c ∷ xs) (pre' ++ c ∷ ys) n res ≡ pos 0
unfolding memcmp
memcmp_res pre xs ys c zero res pre' e h = absurd (omega arith)
memcmp_res [] xs ys c (suc n) res [] e h = let same : (c == c) ≡ true = ground arith in rw same
memcmp_res [] xs ys c (suc n) res (y ∷ pre') e h = absurd (omega arith)
memcmp_res (x ∷ pre) xs ys c (suc n) res [] e h = absurd (omega arith)
memcmp_res (x ∷ pre) xs ys c (suc n) res (y ∷ pre') e h =
    ground (arith, memcmp_res pre xs ys c n (sub_ℕ x y) pre')

-- `memcmp` returns 0 as soon as the two ranges hold the same byte at one place, whatever they hold
-- at all others.
pub memcmp_equal_byte :
    (pre pre' xs ys : List ℕ) (c n : ℕ)
    → length pre ≡ length pre'
    → length pre < n
    → memcmp (pre ++ c ∷ xs) (pre' ++ c ∷ ys) n (pos 0) ≡ pos 0
memcmp_equal_byte pre pre' xs ys c n e h = memcmp_res pre xs ys c n (pos 0) pre' e h
