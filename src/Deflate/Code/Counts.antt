-- ===== src/Deflate/Code/Counts.antt =====
-- The first loop of `huffman_tree` of efi-boot/deflate.c: how many codes there are of each length.
use cyanea.Prelude.{
  ℕ, zero, suc, ◌+◌, ◌%◌, ◌^◌, ◌≤◌, ◌<◌, ◌≡◌, ◌≢◌, refl, sym, ap, ◌∙◌, inl, inr, Bool-cases, true,
  List, [], ◌∷◌, All, some, ltb, ◌==◌, length, length-set, get_elem?, set, replicate, if◌then◌else◌,
  ok, Returns, returns, Returns_mono, arith, subst,
}
use cyanea.Deflate.Huffman.{at, put, count_lengths}

-- An entry, and 0 outside the array.
unfoldable pub entry : List ℕ → ℕ → ℕ
entry [] i = 0
entry (x ∷ xs) zero = x
entry (x ∷ xs) (suc i) = entry xs i

unfoldable pub occurrences : ℕ → List ℕ → ℕ
occurrences l [] = 0
occurrences l (x ∷ xs) = let rest = occurrences l xs in if x == l then suc rest else rest

pub get-entry : (xs : List ℕ) (i : ℕ) → i < length xs → get_elem? xs i ≡ some (entry xs i)
unfolding entry
get-entry [] i h = absurd (omega arith)
get-entry (x ∷ xs) zero h = refl
get-entry (x ∷ xs) (suc i) h = get-entry xs i (omega arith)

pub at-entry : (xs : List ℕ) (i : ℕ) → i < length xs → at xs i ≡ ok (entry xs i)
unfolding at
at-entry xs i h = rw (at, get-entry xs i h) refl

pub put-set : (xs : List ℕ) (i v : ℕ) → i < length xs → put xs i v ≡ ok (set xs i v)
unfolding put
put-set xs i v h = let e : ltb i (length xs) ≡ true = ground arith in rw (put, e) refl

pub entry-set : (xs : List ℕ) (i v : ℕ) → i < length xs → entry (set xs i v) i ≡ v
unfolding entry
entry-set [] i v h = absurd (omega arith)
entry-set (x ∷ xs) zero v h = refl
entry-set (x ∷ xs) (suc i) v h = entry-set xs i v (omega arith)

pub entry-set_ne : (xs : List ℕ) (i j v : ℕ) → i ≢ j → entry (set xs i v) j ≡ entry xs j
unfolding entry
entry-set_ne [] i j v h = refl
entry-set_ne (x ∷ xs) zero zero v h = absurd (h refl)
entry-set_ne (x ∷ xs) zero (suc j) v h = refl
entry-set_ne (x ∷ xs) (suc i) zero v h = refl
entry-set_ne (x ∷ xs) (suc i) (suc j) v h = entry-set_ne xs i j v (λ e. h (ap suc e))

pub entry-set-cases :
    (xs : List ℕ) (i j v : ℕ)
    → i < length xs
    → entry (set xs i v) j ≡ (if i == j then v else entry xs j)
entry-set-cases xs i j v h = elim (Bool-cases (i == j)) [
  | inl e ↦
      let same : i ≡ j = ground arith in
      rw e (ap (entry (set xs i v)) (sym same) ∙ entry-set xs i v h)
  | inr e ↦ rw e (entry-set_ne xs i j v (ground arith))
]

pub entry-replicate : (n i : ℕ) → entry (replicate n 0) i ≡ 0
unfolding entry
entry-replicate zero i = refl
entry-replicate (suc n) zero = refl
entry-replicate (suc n) (suc i) = entry-replicate n i

pub occurrences_le : (l : ℕ) (xs : List ℕ) → occurrences l xs ≤ length xs
unfolding occurrences
occurrences_le l [] = omega arith
occurrences_le l (x ∷ xs) = ground (arith, occurrences_le l xs)

-- Each length is counted.
pub record Counted (lengths counts counts' : List ℕ) : Type 0 where
  pub sized : length counts' ≡ length counts
  pub counted : (l : ℕ) → entry counts' l ≡ entry counts l + occurrences l lengths

pub count_lengths-Counted :
    (lengths counts : List ℕ)
    → All (λ l. l < length counts) lengths
    → ((l : ℕ) → entry counts l + length lengths < 2 ^ 16)
    → Returns (Counted lengths counts) (count_lengths lengths counts)
unfolding count_lengths occurrences
count_lengths-Counted [] counts h small =
    returns counts (record { sized = refl; counted = λ l. omega arith })
count_lengths-Counted (x ∷ lengths) counts (h, hs) small =
    let n = entry counts x in
    let counts₁ = set counts x ((n + 1) % 2 ^ 16) in
    let fits : (n + 1) % 2 ^ 16 ≡ n + 1 = omega (arith, small x) in
    let size = length-set counts x ((n + 1) % 2 ^ 16) in
    let bumped = λ (l : ℕ). entry-set-cases counts x l ((n + 1) % 2 ^ 16) h in
    let in_range = subst (λ k. All (λ l. l < k) lengths) (sym size) hs in
    let room : (l : ℕ) → entry counts₁ l + length lengths < 2 ^ 16 =
      λ l. ground (arith, bumped l, small l, small x, fits) in
    rw (count_lengths, at-entry counts x h, put-set counts x ((n + 1) % 2 ^ 16) h)
      (Returns_mono (count_lengths-Counted lengths counts₁ in_range room) (λ counts' c. record {
        sized = c.sized ∙ size;
        counted = λ l. let k = c.counted l in ground (arith, k, bumped l, fits);
      }))
