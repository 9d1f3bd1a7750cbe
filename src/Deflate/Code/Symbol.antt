-- ===== src/Deflate/Code/Symbol.antt =====
-- `huffman_tree` and `decode_symbol` of efi-boot/deflate.c, together: a symbol is read from its code.
use native.Mathlib.Nat.{div-eq_of_lt}
use cyanea.Prelude.{
  ℕ, zero, suc, ◌+◌, ◌-◌, ◌/◌, ◌^◌, ◌≤◌, ◌<◌, ◌≡◌, refl, sym, ap, ◌∙◌, true, List, [], ◌∷◌, All,
  some, ◌==◌, length, get_elem?, set, take, replicate, Returns, returns, Returns-bind, ◌>>=◌, arith,
}
use cyanea.Align.{pow_le}
use cyanea.Deflate.State.{max_bits, Tree, Inflate}
use cyanea.Deflate.Huffman.{offsets, huffman_tree, decode_symbol}
use cyanea.Deflate.Stream.{Clean, stream}
use cyanea.Deflate.Block.{bits_left}
use cyanea.Deflate.Code.{next_code, code_bits, shorter, total, Decoded, decode_from-code}
use cyanea.Deflate.Code.Counts.{
  entry, occurrences, get-entry, entry-replicate, Counted, count_lengths-Counted,
}
use cyanea.Deflate.Code.Sorted.{Apart, place-Placed}
use cyanea.Deflate.Code.Offsets.{
  counts_from, bl_count_of, length-counts_from, entry-counts_from, counts_from_unique,
  total-counts_from_le, shorter_mono, shorter_le, length-offsets, offsets-shorter,
}

-- The code of the symbol `s`, whose length is `len`: the codes of a length are in the order of their
-- symbols.
unfoldable pub symbol_code : List ℕ → ℕ → ℕ → ℕ
symbol_code lengths s len = next_code 0 (bl_count_of lengths) len + occurrences len (take s lengths)

-- The tree of an alphabet, from the lengths of its codes.
pub record Canonical (lengths : List ℕ) (t : Tree) : Type 0 where
  pub counts : t.bl_count ≡ bl_count_of lengths
  pub symbols :
      (s len : ℕ)
      → get_elem? lengths s ≡ some len
      → 0 < len
      → get_elem? t.sorted_symbols
          (shorter (bl_count_of lengths) len + occurrences len (take s lengths))
        ≡ some s

entry-cons : (x : ℕ) (xs : List ℕ) (i : ℕ) → entry xs i ≡ entry (x ∷ xs) (1 + i)
unfolding entry
entry-cons x xs i = let e : 1 + i ≡ suc i = omega arith in rw e refl

All-get :
    (lengths : List ℕ) (s len : ℕ)
    → All (λ l. l < 16) lengths
    → get_elem? lengths s ≡ some len
    → len < 16
All-get [] s len h e = absurd (ground arith)
All-get (x ∷ lengths) zero len (h, hs) e = ground arith
All-get (x ∷ lengths) (suc s) len (h, hs) e = All-get lengths s len hs e

bl_count-Counted :
    (lengths counts : List ℕ)
    → Counted lengths (replicate max_bits 0) counts
    → set counts 0 0 ≡ bl_count_of lengths
unfolding bl_count_of
bl_count-Counted lengths [] c = absurd (let e = c.sized in omega arith)
bl_count-Counted lengths (x ∷ counts) c =
    ap (λ t. 0 ∷ t)
      (counts_from_unique 15 1 counts lengths (let e = c.sized in omega arith) (λ i h.
        let e : entry counts i ≡ entry (x ∷ counts) (1 + i) = entry-cons x counts i in
        e ∙ omega (arith, c.counted (1 + i), entry-replicate max_bits (1 + i))))

entry-bl_count_of :
    (l : ℕ) (lengths : List ℕ)
    → 0 < l
    → l < 16
    → entry (bl_count_of lengths) l ≡ occurrences l lengths
unfolding bl_count_of entry
entry-bl_count_of zero lengths p h = absurd (omega arith)
entry-bl_count_of (suc l) lengths p h =
    entry-counts_from 15 1 l lengths (omega arith) ∙ ap (λ t. occurrences t lengths) (omega arith)

length-bl_count_of : (lengths : List ℕ) → length (bl_count_of lengths) ≡ 16
unfolding bl_count_of
length-bl_count_of lengths = ap suc (length-counts_from 15 1 lengths)

total-bl_count_of_le : (lengths : List ℕ) → total (bl_count_of lengths) ≤ length lengths
unfolding bl_count_of total
total-bl_count_of_le lengths = omega (arith, total-counts_from_le 15 1 lengths)

-- The lengths and the array of symbols that the code may use.
pub record Alphabet (lengths sorted : List ℕ) : Type 0 where
  pub short : All (λ l. l < 16) lengths
  pub room : length lengths ≤ length sorted
  pub few : length sorted < 2 ^ 16

offsets-Apart :
    (lengths sorted : List ℕ)
    → Alphabet lengths sorted
    → ((l : ℕ)
        → l < 16
        → entry (offsets 0 (bl_count_of lengths)) l ≡ shorter (bl_count_of lengths) l)
      × Apart lengths (offsets 0 (bl_count_of lengths)) sorted
offsets-Apart lengths sorted a =
    let counts = bl_count_of lengths in
    let most = total-bl_count_of_le lengths in
    let size = length-bl_count_of lengths in
    let start : (l : ℕ) → l < 16 → entry (offsets 0 counts) l ≡ shorter counts l = λ l h.
      let r = a.room in
      let f = a.few in omega (arith, offsets-shorter 0 counts l (omega arith) (omega arith)) in
    (
      start,
      record {
        sized = length-offsets 0 counts ∙ size;
        few = a.few;
        inside = λ l p h.
            let r = a.room in
            omega (arith, start l h, shorter_le counts l, entry-bl_count_of l lengths p h);
        ordered = λ l m p q h. omega (
          arith,
          start l (omega arith),
          start m h,
          shorter_mono counts l m q,
          entry-bl_count_of l lengths p (omega arith),
        );
      },
    )

huffman_tree-Canonical :
    (lengths : List ℕ) (tree : Tree)
    → Alphabet lengths tree.sorted_symbols
    → Returns (Canonical lengths) (huffman_tree lengths tree)
unfolding huffman_tree
huffman_tree-Canonical lengths tree a =
    let (start, apart) = offsets-Apart lengths tree.sorted_symbols a in
    let room = a.room in
    let few = a.few in
    Returns-bind (Canonical lengths) _
      (count_lengths-Counted lengths (replicate max_bits 0) a.short
        (λ l. omega (arith, entry-replicate max_bits l)))
      (λ counts c. rw (bl_count-Counted lengths counts c) (
        Returns-bind (Canonical lengths) _
          (place-Placed 0 lengths (offsets 0 (bl_count_of lengths)) tree.sorted_symbols a.short
            (omega arith) apart)
          (λ sorted z.
            let t : Tree = record { bl_count = bl_count_of lengths; sorted_symbols = sorted } in
            returns t (record {
              counts = refl;
              symbols = λ s len e p.
                  let below = All-get lengths s len a.short e in
                  ap (λ t. get_elem? sorted (t + occurrences len (take s lengths)))
                    (sym (start len below))
                  ∙ z.symbols s len e p
                  ∙ ap some (omega arith);
            }))))

occurrences-take_lt :
    (lengths : List ℕ) (s len : ℕ)
    → get_elem? lengths s ≡ some len
    → occurrences len (take s lengths) < occurrences len lengths
unfolding occurrences
occurrences-take_lt [] s len e = absurd (ground arith)
occurrences-take_lt (x ∷ lengths) zero len e =
    let same : x ≡ len = ground arith in
    let eq : (x == len) ≡ true = ground arith in rw eq (omega arith)
occurrences-take_lt (x ∷ lengths) (suc s) len e =
    let rest = occurrences-take_lt lengths s len e in ground arith

-- `decode_symbol` of a tree that is built from the lengths.
decode_symbol-Canonical :
    (lengths : List ℕ) (t : Tree) (s len rest : ℕ) (d : Inflate)
    → Canonical lengths t
    → All (λ l. l < 16) lengths
    → length lengths < 2 ^ 16
    → get_elem? lengths s ≡ some len
    → 0 < len
    → symbol_code lengths s len < 2 ^ len
    → Clean d
    → stream d ≡ code_bits len (symbol_code lengths s len) rest
    → len ≤ bits_left d
    → Returns (Decoded len s rest d) (decode_symbol t d)
unfolding decode_symbol bl_count_of symbol_code next_code total shorter
decode_symbol-Canonical lengths t s zero rest d t_is hs few e p fits c bits more =
    absurd (omega arith)
decode_symbol-Canonical lengths t s (suc len) rest d t_is hs few e p fits c bits more =
    let counts = counts_from 15 1 lengths in
    let v = symbol_code lengths s (suc len) in
    let below = All-get lengths s (suc len) hs e in
    let deep : len < length counts = omega (arith, length-counts_from 15 1 lengths, below) in
    let first : v ≡ next_code 0 counts len + occurrences (suc len) (take s lengths) = refl in
    let n_is : entry counts len ≡ occurrences (suc len) lengths =
      entry-counts_from 15 1 len lengths (omega arith)
      ∙ ap (λ k. occurrences k lengths) (omega arith) in
    let high : v / 2 ^ suc len ≡ 0 = div-eq_of_lt fits in
    let wide : 2 ^ suc len ≤ 2 ^ 15 = pow_le (suc len) 15 (omega arith) in
    let index : 0 + shorter counts len + (v - next_code 0 counts len)
        ≡ shorter (bl_count_of lengths) (suc len) + occurrences (suc len) (take s lengths) =
      omega (arith, first) in
    rw t_is.counts (
      decode_from-code counts t.sorted_symbols len s rest 0 0 0 v (entry counts len) d c bits
        (omega arith) (get-entry counts len deep) (omega (arith, first))
        (omega (arith, first, n_is, occurrences-take_lt lengths s (suc len) e))
        (omega (arith, high)) (omega (arith, wide, fits))
        (omega (arith, total-counts_from_le 15 1 lengths))
        (ap (get_elem? t.sorted_symbols) index ∙ t_is.symbols s (suc len) e p))

-- A tree is built from the lengths of the codes of an alphabet, all below 16, where the array has
-- room for the symbols. Then `decode_symbol` returns the symbol `s` and takes exactly the bits of
-- its code, the canonical one of RFC 1951, when this code fits its length and the stream begins
-- with it.
pub huffman_tree-decode_symbol :
    (lengths : List ℕ) (tree : Tree) (s len rest : ℕ) (d : Inflate)
    → Alphabet lengths tree.sorted_symbols
    → get_elem? lengths s ≡ some len
    → 0 < len
    → symbol_code lengths s len < 2 ^ len
    → Clean d
    → stream d ≡ code_bits len (symbol_code lengths s len) rest
    → len ≤ bits_left d
    → Returns (Decoded len s rest d) (huffman_tree lengths tree >>= λ t. decode_symbol t d)
huffman_tree-decode_symbol lengths tree s len rest d a e p fits c bits more =
    let room = a.room in
    let few = a.few in
    Returns-bind (Decoded len s rest d) _ (huffman_tree-Canonical lengths tree a) (λ t h.
      decode_symbol-Canonical lengths t s len rest d h a.short (omega arith) e p fits c bits more)
