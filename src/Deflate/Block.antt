-- ===== src/Deflate/Block.antt =====
-- The blocks of a "deflate" stream: `deflate_block`, `deflate_uncompressed_block` and
-- `deflate_buffer` of efi-boot/deflate.c.
use cyanea.Prelude.{
  ℕ, zero, suc, ◌+◌, ◌-◌, ◌*◌, ◌^◌, true, false, List, [], ◌∷◌, ◌++◌, ltb, ◌==◌, if◌then◌else◌,
  length, take, drop, Run, ok, fault, timeout, ◌>>=◌,
}
use cyanea.Deflate.State.{
  Tree, err_none, err_overflow, err_undefined, Inflate, is_none, get_bits, get_extra_bits,
}
use cyanea.Deflate.Huffman.{at, decode_symbol, huffman_fixed_tree, huffman_dynamic_tree}

-- `__length_bits`, `__length_base`, `__dist_bits` and `__dist_base`
abbrev pub length_bits : List ℕ
length_bits =
    0 ∷ 0 ∷ 0 ∷ 0 ∷ 0 ∷ 0 ∷ 0 ∷ 0 ∷ 1 ∷ 1 ∷ 1 ∷ 1 ∷ 2 ∷ 2 ∷ 2 ∷ 2 ∷ 3 ∷ 3 ∷ 3 ∷ 3 ∷ 4 ∷ 4 ∷ 4 ∷ 4
    ∷ 5 ∷ 5 ∷ 5 ∷ 5 ∷ 0 ∷ 127 ∷ []

abbrev pub length_base : List ℕ
length_base =
    3 ∷ 4 ∷ 5 ∷ 6 ∷ 7 ∷ 8 ∷ 9 ∷ 10 ∷ 11 ∷ 13 ∷ 15 ∷ 17 ∷ 19 ∷ 23 ∷ 27 ∷ 31 ∷ 35 ∷ 43 ∷ 51 ∷ 59 ∷ 67
    ∷ 83 ∷ 99 ∷ 115 ∷ 131 ∷ 163 ∷ 195 ∷ 227 ∷ 258 ∷ 0 ∷ []

abbrev pub dist_bits : List ℕ
dist_bits =
    0 ∷ 0 ∷ 0 ∷ 0 ∷ 1 ∷ 1 ∷ 2 ∷ 2 ∷ 3 ∷ 3 ∷ 4 ∷ 4 ∷ 5 ∷ 5 ∷ 6 ∷ 6 ∷ 7 ∷ 7 ∷ 8 ∷ 8 ∷ 9 ∷ 9 ∷ 10 ∷ 10
    ∷ 11 ∷ 11 ∷ 12 ∷ 12 ∷ 13 ∷ 13 ∷ []

abbrev pub dist_base : List ℕ
dist_base =
    1 ∷ 2 ∷ 3 ∷ 4 ∷ 5 ∷ 7 ∷ 9 ∷ 13 ∷ 17 ∷ 25 ∷ 33 ∷ 49 ∷ 65 ∷ 97 ∷ 129 ∷ 193 ∷ 257 ∷ 385 ∷ 513 ∷ 769
    ∷ 1025 ∷ 1537 ∷ 2049 ∷ 3073 ∷ 4097 ∷ 6145 ∷ 8193 ∷ 12289 ∷ 16385 ∷ 24577 ∷ []

-- `for (it = 0; it < length; it++) d->dest[it] = d->dest[it - offset];`
unfoldable pub copy_back : ℕ → ℕ → List ℕ → Run (List ℕ)
copy_back zero offset out = ok out
copy_back (suc n) offset out = elim (ltb (length out) offset) [
  | true ↦ fault
  | false ↦ at out (length out - offset) >>= λ byte. copy_back n offset (out ++ byte ∷ [])
]

-- A length and a distance, from the symbol that begins the length.
unfoldable pub copy_pair : ℕ → Inflate → Run Inflate
copy_pair symbol d = at length_bits (symbol - 257) >>= λ n.
    at length_base (symbol - 257) >>= λ base. get_extra_bits n base d >>= λ (len, d₁).
    decode_symbol d₁.distance d₁ >>= λ (distance, d₂). at dist_bits distance >>= λ n'.
    at dist_base distance >>= λ base'. get_extra_bits n' base' d₂ >>= λ (offset, d₃).
    elim (is_none d₃.error) [
      | false ↦ ok d₃
      | true ↦ copy_back len offset d₃.out >>= λ out. ok (record d₃ { out = out })
    ]

-- The loop of `deflate_block`, `fuel` rounds at most, in a block whose output starts at `start`.
unfoldable pub block_loop : ℕ → ℕ → Inflate → Run Inflate
block_loop zero start d = timeout
block_loop (suc fuel) start d = decode_symbol d.ll d >>= λ (symbol, d'). elim (is_none d'.error) [
  | false ↦ ok d'
  | true ↦ elim (symbol == 256) [
    | true ↦ ok (record d' { dest_size = d'.dest_size + (length d'.out - start) })
    | false ↦ elim (ltb symbol 256) [
      | true ↦ block_loop fuel start (record d' { out = d'.out ++ symbol ∷ [] })
      | false ↦ copy_pair symbol d' >>= λ d''. elim (is_none d''.error) [
        | false ↦ ok d''
        | true ↦ block_loop fuel start d''
      ]
    ]
  ]
]

-- Every round takes a bit at least.
unfoldable pub bits_left : Inflate → ℕ
bits_left d = length d.input * 8 + d.nr_bits

unfoldable pub deflate_block : Inflate → Run Inflate
deflate_block d = block_loop (bits_left d + 1) (length d.out) d

-- `get_unaligned_le16`
unfoldable pub get_le16 : List ℕ → Run ℕ
get_le16 bytes = at bytes 0 >>= λ low. at bytes 1 >>= λ high. ok (low + high * 2 ^ 8)

unfoldable pub deflate_uncompressed_block : Inflate → Run Inflate
deflate_uncompressed_block d = elim (ltb (length d.input) 4) [
  | true ↦ ok (record d { error = err_overflow })
  | false ↦ get_le16 d.input >>= λ len.
      let input = drop 4 d.input in
      elim (ltb (length input) len) [
        | true ↦ ok (record d { input = input; error = err_overflow })
        | false ↦ ok (record d {
          input = drop len input;
          out = d.out ++ take len input;
          dest_size = d.dest_size + len;
          bit_accum = 0;
          nr_bits = 0;
        })
      ]
]

unfoldable pub block_of : ℕ → Inflate → Run Inflate
block_of kind d =
    if kind == 0
    then deflate_uncompressed_block d
    else if kind == 1
    then deflate_block (huffman_fixed_tree d)
    else if kind == 2
    then (huffman_dynamic_tree d >>= λ d'. elim (is_none d'.error) [
      | false ↦ ok d'
      | true ↦ deflate_block d'
    ])
    else ok (record d { error = err_undefined })

-- The loop over the blocks, `fuel` at most.
unfoldable pub blocks : ℕ → Inflate → Run Inflate
blocks zero d = timeout
blocks (suc fuel) d = get_bits 1 d >>= λ (final, d₁). get_bits 2 d₁ >>= λ (kind, d₂).
    elim (is_none d₂.error) [
      | false ↦ ok d₂
      | true ↦ block_of kind d₂ >>= λ d₃. elim (is_none d₃.error) [
        | false ↦ ok d₃
        | true ↦ elim (final == 0) [ false ↦ ok d₃ | true ↦ blocks fuel d₃ ]
      ]
    ]

-- The arrays of the trees are what stood on the stack before.
unfoldable pub inflate_start : Tree → Tree → List ℕ → Inflate
inflate_start ll distance source = record {
  input = source;
  out = [];
  error = err_none;
  bit_accum = 0;
  nr_bits = 0;
  dest_size = 0;
  ll = ll;
  distance = distance;
}

-- The state at the end: `error` is returned, and without one `dest_size` is stored in `*dest_len`.
unfoldable pub deflate_buffer : Tree → Tree → List ℕ → Run Inflate
deflate_buffer ll distance source =
    blocks (length source * 8 + 1) (inflate_start ll distance source)
