-- ===== src/Deflate/Stored.antt =====
-- A file in which nothing is compressed, as RFC 1951 and RFC 1952 lay it out, is unpacked by
-- efi-boot/deflate.c to the bytes it was made of.
use cyanea.Prelude.{
  ℕ, zero, suc, ◌+◌, ◌-◌, ◌*◌, ◌/◌, ◌%◌, ◌^◌, ◌≤◌, ◌<◌, ◌≡◌, refl, sym, ap, ◌∙◌, true, false, List,
  [], ◌∷◌, ◌++◌, append_assoc, append-nil, All, length-append, take-append, drop-append, ltb, ◌==◌,
  length, ok, arith,
}
use cyanea.Deflate.State.{Tree, Inflate, err_none, fill, get_bits}
use cyanea.Deflate.Huffman.{at}
use cyanea.Deflate.Block.{
  get_le16, deflate_uncompressed_block, block_of, blocks, inflate_start, deflate_buffer,
}

-- `LEN`, `NLEN` and the bytes of a block; the decompressor does not read `NLEN`.
abbrev pub le16 : ℕ → List ℕ
le16 n = n % 256 ∷ n / 256 ∷ []

abbrev pub stored_block : List ℕ → List ℕ
stored_block chunk =
    let n = length chunk in n % 256 ∷ n / 256 ∷ (255 - n % 256) ∷ (255 - n / 256) ∷ chunk

-- The last block is marked; there is one at least.
unfoldable pub stored : List ℕ → List (List ℕ) → List ℕ
stored chunk [] = 1 ∷ stored_block chunk
stored chunk (next ∷ chunks) = 0 ∷ stored_block chunk ++ stored next chunks

abbrev pub concat : List (List ℕ) → List ℕ
concat [] = []
concat (chunk ∷ chunks) = chunk ++ concat chunks

-- Between two blocks: `bit_accum` and `nr_bits` are 0.
abbrev pub between : Tree → Tree → List ℕ → List ℕ → ℕ → Inflate
between ll distance input out size = record {
  input = input;
  out = out;
  error = err_none;
  bit_accum = 0;
  nr_bits = 0;
  dest_size = size;
  ll = ll;
  distance = distance;
}

-- The same, with the bits of the block's header taken.
abbrev inside : ℕ → Tree → Tree → List ℕ → List ℕ → ℕ → Inflate
inside bits ll distance input out size = record {
  input = input;
  out = out;
  error = err_none;
  bit_accum = 0;
  nr_bits = bits;
  dest_size = size;
  ll = ll;
  distance = distance;
}

le16-at : (a b : ℕ) (rest : List ℕ) → get_le16 (a ∷ b ∷ rest) ≡ ok (a + b * 2 ^ 8)
unfolding get_le16 at
le16-at a b rest = refl

stored_block-copied :
    (ll distance : Tree) (chunk rest out : List ℕ) (size : ℕ)
    → length chunk < 2 ^ 16
    → deflate_uncompressed_block (inside 5 ll distance (stored_block chunk ++ rest) out size)
      ≡ ok (between ll distance rest (out ++ chunk) (size + length chunk))
unfolding deflate_uncompressed_block
stored_block-copied ll distance chunk rest out size small =
    let n = length chunk in
    let input = chunk ++ rest in
    let long : ltb (suc (suc (suc (suc (length input))))) 4 ≡ false = ground arith in
    let whole : n % 256 + n / 256 * 2 ^ 8 ≡ n = omega arith in
    let room : ltb (length input) n ≡ false = ground (arith, length-append chunk rest) in
    ground (
      arith,
      long,
      le16-at (n % 256) (n / 256) ((255 - n % 256) ∷ (255 - n / 256) ∷ input),
      whole,
      room,
      take-append chunk rest,
      drop-append chunk rest,
    )

-- The three bits of a header, then the block, then whatever follows.
one_block :
    (final : ℕ) (ll distance : Tree) (chunk rest out : List ℕ) (size fuel : ℕ)
    → final < 2
    → length chunk < 2 ^ 16
    → blocks (suc fuel) (between ll distance (final ∷ stored_block chunk ++ rest) out size)
      ≡ elim (final == 0) [
        | false ↦ ok (between ll distance rest (out ++ chunk) (size + length chunk))
        | true ↦ blocks fuel (between ll distance rest (out ++ chunk) (size + length chunk))
      ]
unfolding blocks block_of get_bits fill
one_block zero ll distance chunk rest out size fuel bit small =
    rw (stored_block-copied ll distance chunk rest out size small) refl
one_block (suc zero) ll distance chunk rest out size fuel bit small =
    rw (stored_block-copied ll distance chunk rest out size small) refl
one_block (suc (suc final)) ll distance chunk rest out size fuel bit small = absurd (omega arith)

-- How much of the fuel of `deflate_buffer` the blocks take.
abbrev rounds : List (List ℕ) → ℕ
rounds [] = 0
rounds (chunk ∷ chunks) = suc (rounds chunks)

abbrev pub Fits : List ℕ → Type 0
Fits chunk = length chunk < 2 ^ 16

blocks-stored :
    (ll distance : Tree) (chunk : List ℕ) (chunks : List (List ℕ)) (out : List ℕ) (size fuel : ℕ)
    → Fits chunk
    → All Fits chunks
    → rounds chunks < fuel
    → size ≡ length out
    → blocks fuel (between ll distance (stored chunk chunks) out size)
      ≡ ok (
          between ll distance []
            (out ++ concat (chunk ∷ chunks))
            (length (out ++ concat (chunk ∷ chunks))))
unfolding stored
blocks-stored ll distance chunk [] out size zero f fs h s = absurd (omega arith)
blocks-stored ll distance chunk [] out size (suc fuel) f fs h s =
    let n = length chunk in
    let counted : size + n ≡ length (out ++ chunk) = omega (arith, s, length-append out chunk) in
    let ending : ok (between ll distance [] (out ++ chunk) (size + n))
        ≡ ok (
            between ll distance [] (out ++ concat (chunk ∷ []))
              (length (out ++ concat (chunk ∷ [])))) =
      rw (append-nil chunk, counted) refl in
    ap
      (λ l. blocks (suc fuel) (
        between ll distance (1 ∷ n % 256 ∷ n / 256 ∷ (255 - n % 256) ∷ (255 - n / 256) ∷ l) out
          size))
      (sym (append-nil chunk))
    ∙ one_block 1 ll distance chunk [] out size fuel (omega arith) f
    ∙ ending
blocks-stored ll distance chunk (next ∷ chunks) out size zero f fs h s = absurd (omega arith)
blocks-stored ll distance chunk (next ∷ chunks) out size (suc fuel) f (g, fs) h s =
    one_block 0 ll distance chunk (stored next chunks) out size fuel (omega arith) f
    ∙ blocks-stored ll distance next chunks (out ++ chunk) (size + length chunk) fuel g fs
        (omega arith) (omega (arith, s, length-append out chunk))
    ∙ ap (λ l. ok (between ll distance [] l (length l)))
        (append_assoc out chunk (concat (next ∷ chunks)))

-- Each block has five bytes at least, and each byte is worth eight rounds.
rounds_le : (chunk : List ℕ) (chunks : List (List ℕ)) → rounds chunks ≤ length (stored chunk chunks)
unfolding stored
rounds_le chunk [] = omega arith
rounds_le chunk (next ∷ chunks) =
    omega (arith, rounds_le next chunks, length-append (stored_block chunk) (stored next chunks))

pub deflate_buffer-stored :
    (ll distance : Tree) (chunk : List ℕ) (chunks : List (List ℕ))
    → Fits chunk
    → All Fits chunks
    → deflate_buffer ll distance (stored chunk chunks)
      ≡ ok (between ll distance [] (concat (chunk ∷ chunks)) (length (concat (chunk ∷ chunks))))
unfolding deflate_buffer inflate_start
deflate_buffer-stored ll distance chunk chunks f fs =
    let fuel = length (stored chunk chunks) * 8 + 1 in
    blocks-stored ll distance chunk chunks [] 0 fuel f fs (omega (arith, rounds_le chunk chunks))
      refl
