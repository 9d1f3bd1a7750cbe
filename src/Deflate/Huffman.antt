-- ===== src/Deflate/Huffman.antt =====
-- The Huffman trees of efi-boot/deflate.c: they are built from the lengths of the codes, and a code
-- is followed bit by bit.
use cyanea.Prelude.{
  ℕ, zero, suc, ◌+◌, ◌-◌, ◌*◌, ◌%◌, ◌^◌, true, false, List, [], ◌∷◌, none, some, ltb, ◌==◌,
  if◌then◌else◌, length, get_elem?, set, take, drop, replicate, Run, ok, fault, timeout, ◌>>=◌,
}
use cyanea.Deflate.State.{
  max_bits, max_symbols, max_distance, Tree, err_symbol, Inflate, is_none, get_bits, get_extra_bits,
}

-- `a[i]`, where `i` may be outside the array.
unfoldable pub at : List ℕ → ℕ → Run ℕ
at xs i = elim (get_elem? xs i) [ none ↦ fault | some x ↦ ok x ]

-- `a[i] = v`
unfoldable pub put : List ℕ → ℕ → ℕ → Run (List ℕ)
put xs i v = if ltb i (length xs) then ok (set xs i v) else fault

-- `for (it = 0; it < nr_sym; it++) tree->bl_count[lengths[it]]++;`
unfoldable pub count_lengths : List ℕ → List ℕ → Run (List ℕ)
count_lengths [] counts = ok counts
count_lengths (l ∷ lengths) counts =
    at counts l >>= λ n. put counts l ((n + 1) % 2 ^ 16) >>= count_lengths lengths

-- `offs[it]` for every length: how many codes are shorter.
unfoldable pub offsets : ℕ → List ℕ → List ℕ
offsets sum [] = []
offsets sum (n ∷ counts) = sum ∷ offsets ((sum + n) % 2 ^ 16) counts

-- The last loop of `huffman_tree`, from the symbol `it` on.
unfoldable pub place : ℕ → List ℕ → List ℕ → List ℕ → Run (List ℕ)
place it [] offs sorted = ok sorted
place it (l ∷ lengths) offs sorted = elim (l == 0) [
  | true ↦ place (it + 1) lengths offs sorted
  | false ↦ at offs l >>= λ o. put sorted o (it % 2 ^ 16) >>= λ sorted'.
      put offs l ((o + 1) % 2 ^ 16) >>= λ offs'. place (it + 1) lengths offs' sorted'
]

unfoldable pub huffman_tree : List ℕ → Tree → Run Tree
huffman_tree lengths tree = count_lengths lengths (replicate max_bits 0) >>= λ counts.
    let bl_count = set counts 0 0 in
    place 0 lengths (offsets 0 bl_count) tree.sorted_symbols >>= λ sorted.
    ok (record { bl_count = bl_count; sorted_symbols = sorted })

-- The loop of `decode_symbol`, for the lengths whose counts are left.
unfoldable pub decode_from : List ℕ → List ℕ → ℕ → ℕ → Inflate → Run (ℕ × Inflate)
decode_from [] sorted sum offs d = ok (0, record d { error = err_symbol })
decode_from (count ∷ counts) sorted sum offs d = get_bits 1 d >>= λ (bit, d').
    let offs' = (2 * offs + bit) % 2 ^ 16 in
    elim (is_none d'.error) [
      | false ↦ ok (0, d')
      | true ↦ elim (ltb offs' count) [
        | true ↦ at sorted (sum + offs') >>= λ symbol. ok (symbol, d')
        | false ↦ decode_from counts sorted ((sum + count) % 2 ^ 16) (offs' - count) d'
      ]
    ]

unfoldable pub decode_symbol : Tree → Inflate → Run (ℕ × Inflate)
decode_symbol tree d = decode_from (drop 1 tree.bl_count) tree.sorted_symbols 0 0 d

-- `for (it = 0; it < n; it++) sorted[at + it] = from + it;`
unfoldable pub write_range : ℕ → ℕ → ℕ → List ℕ → List ℕ
write_range zero i from sorted = sorted
write_range (suc n) i from sorted = write_range n (i + 1) (from + 1) (set sorted i from)

unfoldable pub huffman_fixed_tree : Inflate → Inflate
huffman_fixed_tree d = record d {
  ll = record {
    bl_count = set (set (set (replicate max_bits 0) 7 24) 8 152) 9 112;
    sorted_symbols = write_range 112 (24 + 144 + 8) 144 (
        write_range 8 (24 + 144) 280
          (write_range 144 24 0 (write_range 24 0 256 d.ll.sorted_symbols)));
  };
  distance = record {
    bl_count = set (replicate max_bits 0) 5 32;
    sorted_symbols = write_range 32 0 0 d.distance.sorted_symbols;
  };
}

-- `__code_len_for_code_idx`
abbrev pub code_order : List ℕ
code_order = 16 ∷ 17 ∷ 18 ∷ 0 ∷ 8 ∷ 7 ∷ 9 ∷ 6 ∷ 10 ∷ 5 ∷ 11 ∷ 4 ∷ 12 ∷ 3 ∷ 13 ∷ 2 ∷ 14 ∷ 1 ∷ 15 ∷ []

-- The lengths of the codes for lengths.
unfoldable pub read_code_lengths : List ℕ → List ℕ → Inflate → Run (List ℕ × Inflate)
read_code_lengths [] lengths d = ok (lengths, d)
read_code_lengths (i ∷ order) lengths d = get_bits 3 d >>= λ (l, d').
    put lengths i (l % 256) >>= λ lengths'. read_code_lengths order lengths' d'

-- `while (length--) lengths[it++] = symbol;`
unfoldable pub write_lengths : ℕ → ℕ → ℕ → List ℕ → Run (List ℕ)
write_lengths zero it symbol lengths = ok lengths
write_lengths (suc n) it symbol lengths =
    put lengths it (symbol % 256) >>= write_lengths n (it + 1) symbol

-- What a symbol of the third tree stands for: a length, how often it is repeated, and the state
-- behind the bits that say so.
pub record Repeat : Type 0 where
  pub symbol : ℕ
  pub times : ℕ
  pub state : Inflate

unfoldable pub repeat_of : ℕ → ℕ → List ℕ → Inflate → Run Repeat
repeat_of symbol it lengths d =
    let zeros : ℕ → ℕ → Run Repeat = λ n base. get_extra_bits n base d >>= λ (times, d').
    ok (record { symbol = 0; times = times; state = d' }) in
    if symbol == 16
    then (if it == 0
        then ok (record { symbol = symbol; times = 0; state = record d { error = err_symbol } })
        else at lengths (it - 1) >>= λ last. get_extra_bits 2 3 d >>= λ (times, d').
            ok (record { symbol = last; times = times; state = d' }))
    else if symbol == 17
    then zeros 3 3
    else if symbol == 18
    then zeros 7 11
    else ok (record { symbol = symbol; times = 1; state = d })

-- The loop over the lengths of both trees, `fuel` rounds at most, up to `total`.
unfoldable pub read_lengths : ℕ → ℕ → ℕ → List ℕ → Inflate → Run (List ℕ × Inflate)
read_lengths zero total it lengths d = timeout
read_lengths (suc fuel) total it lengths d = elim (ltb it total) [
  | false ↦ ok (lengths, d)
  | true ↦ decode_symbol d.ll d >>= λ (symbol, d'). elim (is_none d'.error) [
    | false ↦ ok (lengths, d')
    | true ↦ repeat_of symbol it lengths d' >>= λ r. elim (is_none r.state.error) [
      | false ↦ ok (lengths, r.state)
      | true ↦ write_lengths r.times it r.symbol lengths >>= λ lengths'.
          read_lengths fuel total (it + r.times) lengths' r.state
    ]
  ]
]

-- Both trees from the lengths of their codes.
unfoldable pub build_trees : ℕ → ℕ → List ℕ → Inflate → Run Inflate
build_trees hlit hdist lengths d = huffman_tree (take hlit lengths) d.ll >>= λ ll.
    huffman_tree (take hdist (drop hlit lengths)) d.distance >>= λ distance.
    ok (record d { ll = ll; distance = distance })

-- The part of `huffman_dynamic_tree` behind the three counts.
unfoldable pub dynamic_lengths : ℕ → ℕ → ℕ → Inflate → Run Inflate
dynamic_lengths hlit hdist hclen d =
    read_code_lengths (take hclen code_order) (replicate (max_symbols + max_distance) 0) d
    >>= λ (lengths, d'). elim (is_none d'.error) [
      | false ↦ ok d'
      | true ↦ huffman_tree (take 19 lengths) d'.ll >>= λ ll.
          read_lengths (hlit + hdist + 1) (hlit + hdist) 0 lengths (record d' { ll = ll })
          >>= λ (lengths', d''). elim (is_none d''.error) [
            | false ↦ ok d''
            | true ↦ build_trees hlit hdist lengths' d''
          ]
    ]

unfoldable pub huffman_dynamic_tree : Inflate → Run Inflate
huffman_dynamic_tree d = get_extra_bits 5 257 d >>= λ (hlit, d₁).
    get_extra_bits 5 1 d₁ >>= λ (hdist, d₂). get_extra_bits 4 4 d₂ >>= λ (hclen, d₃).
    elim (is_none d₃.error) [ false ↦ ok d₃ | true ↦ dynamic_lengths hlit hdist hclen d₃ ]
