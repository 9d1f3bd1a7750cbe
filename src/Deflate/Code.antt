-- ===== src/Deflate/Code.antt =====
-- The codes of RFC 1951 for an alphabet, and how `decode_symbol` of efi-boot/deflate.c reads one.
pub mod Counts
pub mod Sorted
pub mod Offsets
pub mod Symbol
use native.Mathlib.Nat.{
  pow-suc, mul-le-mul_right, mul_assoc, mul_comm, le-div_iff_mul-le, div-div-eq-div-mul,
  div-le_self,
}
use cyanea.Prelude.{
  ℕ, zero, suc, ◌+◌, ◌-◌, ◌*◌, ◌/◌, ◌%◌, ◌^◌, ◌≤◌, ◌<◌, ◌≡◌, refl, sym, ap, ◌∙◌, inl, inr,
  Bool-cases, true, false, List, [], ◌∷◌, none, some, ltb, length, get_elem?, drop, Run, ok,
  Returns, returns, Returns-bind, Returns_mono, arith,
}
use cyanea.Align.{pow_pos}
use cyanea.Deflate.State.{Tree, Inflate, is_none, get_bits}
use cyanea.Deflate.Huffman.{at, decode_from, decode_symbol}
use cyanea.Deflate.Block.{bits_left}
use cyanea.Deflate.Stream.{Clean, Taken, Bits, stream, get_bits-Bits}

-- `next_code` of RFC 1951, 3.2.2: the first code of a length, from the numbers of codes of each
-- length, where `code` is the first one of the length that the list begins with.
unfoldable pub next_code : ℕ → List ℕ → ℕ → ℕ
next_code code [] len = code
next_code code (n ∷ bl_count) zero = code
next_code code (n ∷ bl_count) (suc len) = next_code ((code + n) * 2) bl_count len

-- A code of `len` bits, the highest one first, and behind it the rest of the stream.
unfoldable pub code_bits : ℕ → ℕ → ℕ → ℕ
code_bits zero code rest = rest
code_bits (suc len) code rest = code / 2 ^ len % 2 + code_bits len code rest * 2

-- How many codes are shorter.
unfoldable pub shorter : List ℕ → ℕ → ℕ
shorter [] len = 0
shorter (n ∷ bl_count) zero = 0
shorter (n ∷ bl_count) (suc len) = n + shorter bl_count len

unfoldable pub total : List ℕ → ℕ
total [] = 0
total (n ∷ bl_count) = n + total bl_count

next_code_le :
    (code : ℕ) (bl_count : List ℕ) (len : ℕ)
    → len < length bl_count
    → code * 2 ^ len ≤ next_code code bl_count len
unfolding next_code
next_code_le code [] len h = absurd (omega arith)
next_code_le code (n ∷ bl_count) zero h = omega arith
next_code_le code (n ∷ bl_count) (suc len) h =
    let double = pow-suc 2 len in
    let p = 2 ^ len in
    let later = next_code_le ((code + n) * 2) bl_count len (omega arith) in
    let grown : code * 2 * p ≤ (code + n) * 2 * p = mul-le-mul_right p (omega arith) in
    let same : code * 2 ^ suc len ≡ code * 2 * p =
      ap (λ t. code * t) (double ∙ mul_comm p 2) ∙ sym (mul_assoc code 2 p) in
    omega (arith, later, grown, same)

-- What a symbol that is read leaves.
pub record Decoded (len symbol rest : ℕ) (d : Inflate) (r : ℕ × Inflate) : Type 0 where
  pub symbol_is : r.0 ≡ symbol
  pub rest_is : stream r.1 ≡ rest
  pub left : bits_left r.1 + len ≡ bits_left d
  pub clean : Clean r.1

-- One bit of a code.
bit_read :
    (d : Inflate) (v len rest : ℕ)
    → Clean d
    → stream d ≡ code_bits (suc len) v rest
    → 0 < bits_left d
    → Returns
        (λ (r : ℕ × Inflate).
          (r.0 ≡ v / 2 ^ len % 2)
          × (stream r.1 ≡ code_bits len v rest)
          × (bits_left r.1 + 1 ≡ bits_left d)
          × Clean r.1)
        (get_bits 1 d)
unfolding code_bits
bit_read d v len rest c s more = Returns_mono (get_bits-Bits 1 d c (omega arith)) (λ r b. elim b [
  | inl (enough, t) ↦ (omega (arith, t.value, s), omega (arith, t.rest, s), t.left, t.clean)
  | inr (short, nothing, err) ↦ absurd (omega arith)
])

at-read :
    (sorted : List ℕ) (i symbol : ℕ) → get_elem? sorted i ≡ some symbol → at sorted i ≡ ok symbol
unfolding at
at-read sorted i symbol e = rw (at, e) refl

pub get_elem?_lt : (xs : List ℕ) (i v : ℕ) → get_elem? xs i ≡ some v → i < length xs
get_elem?_lt [] i v h = ground arith
get_elem?_lt (x ∷ xs) zero v h = omega arith
get_elem?_lt (x ∷ xs) (suc i) v h = omega (arith, get_elem?_lt xs i v h)

pub decode_from-code :
    (counts sorted : List ℕ) (len symbol rest first sum offs v n : ℕ) (d : Inflate)
    → Clean d
    → stream d ≡ code_bits (suc len) v rest
    → len < bits_left d
    → get_elem? counts len ≡ some n
    → next_code first counts len ≤ v
    → v < next_code first counts len + n
    → v / 2 ^ suc len * 2 ≡ first + offs * 2
    → v < 2 ^ 16
    → sum + total counts < 2 ^ 16
    → get_elem? sorted (sum + shorter counts len + (v - next_code first counts len)) ≡ some symbol
    → Returns (Decoded (suc len) symbol rest d) (decode_from counts sorted sum offs d)
unfolding decode_from next_code shorter total code_bits
decode_from-code [] sorted len symbol rest first sum offs v n d c s more g lo hi node small few
      found =
    absurd (ground arith)
decode_from-code (m ∷ counts) sorted zero symbol rest first sum offs v n d c s more g lo hi node
      small few found =
    Returns-bind (Decoded 1 symbol rest d) _ (bit_read d v 0 rest c s (omega arith)) (λ r b.
      let (bit, behind, left, clean) = b in
      let same : m ≡ n = ground arith in
      let half : v / 2 ^ 1 ≡ v / 2 ^ 0 / 2 = omega arith in
      let offs_is : (2 * offs + r.0) % 2 ^ 16 ≡ v - first = omega arith in
      let here : ltb ((2 * offs + r.0) % 2 ^ 16) m ≡ true = ground (arith, offs_is) in
      let at_it : at sorted (sum + (2 * offs + r.0) % 2 ^ 16) ≡ ok symbol =
        let index : sum + (2 * offs + r.0) % 2 ^ 16 ≡ sum + 0 + (v - first) =
          omega (arith, offs_is) in
        at-read sorted (sum + (2 * offs + r.0) % 2 ^ 16) symbol
          (ap (get_elem? sorted) index ∙ found) in
      rw (clean.fine, here, at_it)
        (returns (symbol, r.1)
          (record { symbol_is = refl; rest_is = behind; left = left; clean = clean })))
decode_from-code (m ∷ counts) sorted (suc len) symbol rest first sum offs v n d c s more g lo hi
      node small few found =
    let p = 2 ^ suc len in
    let first' = (first + m) * 2 in
    let deep : len < length counts = get_elem?_lt counts len n g in
    let least = next_code_le first' counts len deep in
    let double : first' * 2 ^ len ≡ (first + m) * p =
      mul_assoc (first + m) 2 (2 ^ len)
      ∙ ap (λ t. (first + m) * t) (mul_comm 2 (2 ^ len) ∙ sym (pow-suc 2 len)) in
    let past : first + m ≤ v / p =
      (le-div_iff_mul-le (pow_pos (suc len))).1 (omega (arith, least, double, lo)) in
    let half : v / 2 ^ suc (suc len) ≡ v / p / 2 =
      ap (λ t. v / t) (pow-suc 2 (suc len)) ∙ sym (div-div-eq-div-mul v p 2) in
    let low : v / p ≤ v = div-le_self v p in
    Returns-bind (Decoded (suc (suc len)) symbol rest d) _
      (bit_read d v (suc len) rest c s (omega arith))
      (λ r b.
        let (bit, behind, left, clean) = b in
        let offs_is : (2 * offs + r.0) % 2 ^ 16 ≡ v / p - first =
          omega (arith, half, node, bit, low, past) in
        let deeper : ltb ((2 * offs + r.0) % 2 ^ 16) m ≡ false = ground (arith, offs_is, past) in
        let sum_is : (sum + m) % 2 ^ 16 ≡ sum + m = omega arith in
        let index : (sum + m) % 2 ^ 16 + shorter counts len + (v - next_code first' counts len)
            ≡ sum + (m + shorter counts len) + (v - next_code first' counts len) =
          omega (arith, sum_is) in
        rw (clean.fine, deeper)
          (Returns_mono
            (decode_from-code counts sorted len symbol rest first' ((sum + m) % 2 ^ 16)
              ((2 * offs + r.0) % 2 ^ 16 - m) v n r.1 clean behind (omega (arith, left)) g lo hi
              (omega (arith, offs_is, past)) small (omega (arith, sum_is))
              (ap (get_elem? sorted) index ∙ found))
            (λ q z. record {
              symbol_is = z.symbol_is;
              rest_is = z.rest_is;
              left = omega (arith, z.left, left);
              clean = z.clean;
            })))
