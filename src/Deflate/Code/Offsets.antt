-- ===== src/Deflate/Code/Offsets.antt =====
-- The second loop of `huffman_tree` of efi-boot/deflate.c: the sums of the numbers of codes.
use cyanea.Prelude.{
  ℕ, zero, suc, ◌+◌, ◌%◌, ◌^◌, ◌≤◌, ◌<◌, ◌≡◌, refl, ap, ◌∙◌, inl, inr, Bool-cases, List, [], ◌∷◌,
  ◌==◌, length, arith,
}
use cyanea.Deflate.Huffman.{offsets}
use cyanea.Deflate.Code.{shorter, total}
use cyanea.Deflate.Code.Counts.{entry, occurrences}

-- How many codes there are of `n` lengths, from `l` on.
unfoldable pub counts_from : ℕ → ℕ → List ℕ → List ℕ
counts_from zero l lengths = []
counts_from (suc n) l lengths = occurrences l lengths ∷ counts_from n (l + 1) lengths

-- `bl_count` of RFC 1951, 3.2.2.
unfoldable pub bl_count_of : List ℕ → List ℕ
bl_count_of lengths = 0 ∷ counts_from 15 1 lengths

pub length-counts_from : (n l : ℕ) (lengths : List ℕ) → length (counts_from n l lengths) ≡ n
unfolding counts_from
length-counts_from zero l lengths = refl
length-counts_from (suc n) l lengths = ap suc (length-counts_from n (l + 1) lengths)

pub entry-counts_from :
    (n l i : ℕ) (lengths : List ℕ)
    → i < n
    → entry (counts_from n l lengths) i ≡ occurrences (l + i) lengths
unfolding counts_from entry
entry-counts_from zero l i lengths h = absurd (omega arith)
entry-counts_from (suc n) l zero lengths h = ap (λ t. occurrences t lengths) (omega arith)
entry-counts_from (suc n) l (suc i) lengths h =
    entry-counts_from n (l + 1) i lengths (omega arith)
    ∙ ap (λ t. occurrences t lengths) (omega arith)

pub counts_from_unique :
    (n l : ℕ) (xs lengths : List ℕ)
    → length xs ≡ n
    → ((i : ℕ) → i < n → entry xs i ≡ occurrences (l + i) lengths)
    → xs ≡ counts_from n l lengths
unfolding counts_from entry
counts_from_unique zero l [] lengths e h = refl
counts_from_unique zero l (x ∷ xs) lengths e h = absurd (omega arith)
counts_from_unique (suc n) l [] lengths e h = absurd (omega arith)
counts_from_unique (suc n) l (x ∷ xs) lengths e h =
    let first : x ≡ occurrences l lengths =
      h 0 (omega arith) ∙ ap (λ t. occurrences t lengths) (omega arith) in
    let rest =
      counts_from_unique n (l + 1) xs lengths (omega arith)
        (λ i q. h (suc i) (omega arith) ∙ ap (λ t. occurrences t lengths) (omega arith)) in
    ap (λ t. t ∷ xs) first ∙ ap (λ t. occurrences l lengths ∷ t) rest

-- One length more adds one code at most, and none to the lengths above it.
pub total-counts_from-cons :
    (n l x : ℕ) (lengths : List ℕ)
    → (total (counts_from n l (x ∷ lengths)) ≤ suc (total (counts_from n l lengths)))
      × (x < l → total (counts_from n l (x ∷ lengths)) ≡ total (counts_from n l lengths))
unfolding counts_from total occurrences
total-counts_from-cons zero l x lengths = (omega arith, λ h. refl)
total-counts_from-cons (suc n) l x lengths =
    let (most, none_above) = total-counts_from-cons n (l + 1) x lengths in
    elim (Bool-cases (x == l)) [
      | inl e ↦
          let same : x ≡ l = ground arith in
          let rest = none_above (omega arith) in
          (rw e (omega (arith, rest)), λ h. absurd (omega arith))
      | inr e ↦ (rw e (omega (arith, most)), λ h. rw e (omega (arith, none_above (omega arith))))
    ]

pub total-counts_from_le :
    (n l : ℕ) (lengths : List ℕ) → total (counts_from n l lengths) ≤ length lengths
unfolding counts_from total occurrences
total-counts_from_le zero l lengths = omega arith
total-counts_from_le (suc n) l [] = omega (arith, total-counts_from_le n (l + 1) [])
total-counts_from_le (suc n) l (x ∷ lengths) =
    let (most, above) = total-counts_from-cons (suc n) l x lengths in
    omega (arith, most, total-counts_from_le (suc n) l lengths)

-- Sums of the counts.
pub shorter-suc :
    (counts : List ℕ) (l : ℕ) → shorter counts (suc l) ≡ shorter counts l + entry counts l
unfolding shorter entry
shorter-suc [] l = refl
shorter-suc (n ∷ []) zero = omega arith
shorter-suc (n ∷ m ∷ counts) zero = omega arith
shorter-suc (n ∷ counts) (suc l) = omega (arith, shorter-suc counts l)

pub shorter_mono :
    (counts : List ℕ) (l m : ℕ) → l < m → shorter counts l + entry counts l ≤ shorter counts m
unfolding shorter entry
shorter_mono [] l m h = omega arith
shorter_mono (n ∷ counts) l zero h = absurd (omega arith)
shorter_mono (n ∷ counts) zero (suc m) h = omega arith
shorter_mono (n ∷ counts) (suc l) (suc m) h = omega (arith, shorter_mono counts l m (omega arith))

pub shorter_le : (counts : List ℕ) (l : ℕ) → shorter counts l + entry counts l ≤ total counts
unfolding shorter entry total
shorter_le [] l = omega arith
shorter_le (n ∷ counts) zero = omega arith
shorter_le (n ∷ counts) (suc l) = omega (arith, shorter_le counts l)

pub length-offsets : (sum : ℕ) (counts : List ℕ) → length (offsets sum counts) ≡ length counts
unfolding offsets
length-offsets sum [] = refl
length-offsets sum (n ∷ counts) = ap suc (length-offsets ((sum + n) % 2 ^ 16) counts)

pub offsets-shorter :
    (sum : ℕ) (counts : List ℕ) (l : ℕ)
    → sum + total counts < 2 ^ 16
    → l < length counts
    → entry (offsets sum counts) l ≡ sum + shorter counts l
unfolding offsets entry shorter total
offsets-shorter sum [] l few h = absurd (omega arith)
offsets-shorter sum (n ∷ counts) zero few h = omega arith
offsets-shorter sum (n ∷ counts) (suc l) few h =
    let fits : (sum + n) % 2 ^ 16 ≡ sum + n = omega arith in
    omega (
      arith,
      fits,
      offsets-shorter ((sum + n) % 2 ^ 16) counts l (omega (arith, fits)) (omega arith),
    )
