-- ===== src/Deflate/Tests.antt =====
-- Runs of efi-boot/deflate.c.
use cyanea.Prelude.{
  ℕ, ◌≡◌, refl, List, [], ◌∷◌, some, replicate, Run, ok, Returns, ◌>>=◌, fault, ok≢fault, ◌≢◌, sym,
  ap, ◌∙◌, arith,
}
use cyanea.Deflate.State.{Tree, Inflate, fill, get_bits, get_extra_bits}
use cyanea.Deflate.Huffman.{
  at, put, count_lengths, offsets, place, huffman_tree, decode_from, decode_symbol, write_range,
  huffman_fixed_tree, read_code_lengths, write_lengths, repeat_of, read_lengths, build_trees,
  dynamic_lengths, huffman_dynamic_tree,
}
use cyanea.Deflate.Block.{
  copy_back, copy_pair, block_loop, bits_left, deflate_block, get_le16, deflate_uncompressed_block,
  block_of, blocks, inflate_start, deflate_buffer,
}
use cyanea.Deflate.Crc.{crc_nibble, crc_loop, update_crc32}
use cyanea.Deflate.Progress.Blocks.{Sized, deflate_buffer-Sized}
use cyanea.Deflate.Gzip.RoundTrip.{Stamp, gzip, decompress_gzip-gzip}
use cyanea.Deflate.Stream.{Clean, Bits, little_endian, get_bits-Bits}
use cyanea.Deflate.Code.{Decoded, next_code, code_bits}
use cyanea.Deflate.Code.Counts.{occurrences}
use cyanea.Deflate.Code.Offsets.{counts_from, bl_count_of}
use cyanea.Deflate.Code.Symbol.{symbol_code, Alphabet, huffman_tree-decode_symbol}
use cyanea.Deflate.Crc.Bitwise.{crc32, update_crc32-crc32}
use cyanea.Deflate.Gzip.{
  get_le32, skip_string, bad_header, skip_extra, skip_text, check_header_crc, header_end,
  decompress_gzip,
}

abbrev stale : Tree
stale = record { bl_count = replicate 16 0; sorted_symbols = replicate 288 0 }

-- `abc`, four times, in a file that keeps its name.
abbrev packed : List ℕ
packed =
    31 ∷ 139 ∷ 8 ∷ 8 ∷ 0 ∷ 0 ∷ 0 ∷ 0 ∷ 0 ∷ 3 ∷ 107 ∷ 0 ∷ 75 ∷ 76 ∷ 74 ∷ 78 ∷ 132 ∷ 33 ∷ 0 ∷ 52 ∷ 42
    ∷ 110 ∷ 90 ∷ 12 ∷ 0 ∷ 0 ∷ 0 ∷ []

gzip_runs :
    decompress_gzip stale stale packed
    ≡ ok (some (97 ∷ 98 ∷ 99 ∷ 97 ∷ 98 ∷ 99 ∷ 97 ∷ 98 ∷ 99 ∷ 97 ∷ 98 ∷ 99 ∷ []))
unfolding decompress_gzip header_end check_header_crc skip_text skip_extra bad_header skip_string
    get_le32 update_crc32 crc_loop crc_nibble deflate_buffer inflate_start blocks block_of
    deflate_uncompressed_block get_le16 deflate_block bits_left block_loop copy_pair copy_back
    huffman_dynamic_tree huffman_fixed_tree write_range decode_symbol decode_from at get_extra_bits
    get_bits fill
gzip_runs = refl

-- A block with trees of its own.
abbrev dynamic : List ℕ
dynamic =
    69 ∷ 140 ∷ 137 ∷ 13 ∷ 0 ∷ 48 ∷ 8 ∷ 2 ∷ 103 ∷ 229 ∷ 216 ∷ 127 ∷ 135 ∷ 34 ∷ 54 ∷ 173 ∷ 49 ∷ 138
    ∷ 242 ∷ 8 ∷ 219 ∷ 74 ∷ 101 ∷ 160 ∷ 135 ∷ 242 ∷ 99 ∷ 214 ∷ 204 ∷ 20 ∷ 115 ∷ 76 ∷ 179 ∷ 186 ∷ 175
    ∷ 45 ∷ 67 ∷ 159 ∷ 4 ∷ 227 ∷ 75 ∷ 14 ∷ 84 ∷ 19 ∷ 180 ∷ 10 ∷ 216 ∷ 28 ∷ 95 ∷ 162 ∷ 177 ∷ 174 ∷ 167
    ∷ 151 ∷ 215 ∷ 91 ∷ 171 ∷ 14 ∷ []

abbrev output : Run Inflate → Run (List ℕ)
output r = r >>= λ d. ok d.out

dynamic_runs :
    output (deflate_buffer stale stale dynamic)
    ≡ ok (
        97 ∷ 98 ∷ 99 ∷ 99 ∷ 99 ∷ 97 ∷ 97 ∷ 97 ∷ 97 ∷ 99 ∷ 97 ∷ 97 ∷ 98 ∷ 97 ∷ 99 ∷ 97 ∷ 97 ∷ 97 ∷ 97
        ∷ 99 ∷ 97 ∷ 97 ∷ 98 ∷ 99 ∷ 99 ∷ 97 ∷ 98 ∷ 97 ∷ 97 ∷ 98 ∷ 99 ∷ 97 ∷ 98 ∷ 97 ∷ 97 ∷ 97 ∷ 97
        ∷ 97 ∷ 98 ∷ 98 ∷ 97 ∷ 97 ∷ 98 ∷ 97 ∷ 97 ∷ 98 ∷ 97 ∷ 98 ∷ 97 ∷ 99 ∷ 97 ∷ 97 ∷ 98 ∷ 97 ∷ 97
        ∷ 97 ∷ 98 ∷ 97 ∷ 99 ∷ 97 ∷ 97 ∷ 97 ∷ 97 ∷ 99 ∷ 98 ∷ 98 ∷ 97 ∷ 97 ∷ 98 ∷ 98 ∷ 99 ∷ 97 ∷ 97
        ∷ 98 ∷ 97 ∷ 98 ∷ 98 ∷ 98 ∷ 97 ∷ 98 ∷ 99 ∷ 98 ∷ 97 ∷ 97 ∷ 97 ∷ 98 ∷ 97 ∷ 99 ∷ 98 ∷ 97 ∷ 98
        ∷ 99 ∷ 97 ∷ 97 ∷ 97 ∷ 98 ∷ 99 ∷ 97 ∷ 97 ∷ 98 ∷ 97 ∷ 97 ∷ 98 ∷ 98 ∷ 99 ∷ 98 ∷ 98 ∷ 97 ∷ 97
        ∷ 97 ∷ 98 ∷ 98 ∷ 97 ∷ 99 ∷ 97 ∷ 98 ∷ 99 ∷ 97 ∷ 97 ∷ 97 ∷ 98 ∷ 97 ∷ 97 ∷ 97 ∷ 97 ∷ 98 ∷ 99
        ∷ 98 ∷ 98 ∷ 98 ∷ 97 ∷ 98 ∷ 97 ∷ 97 ∷ 98 ∷ 97 ∷ 97 ∷ 99 ∷ 97 ∷ 98 ∷ 99 ∷ 98 ∷ 97 ∷ 97 ∷ 98
        ∷ 97 ∷ 99 ∷ 98 ∷ 97 ∷ 97 ∷ [])
unfolding deflate_buffer inflate_start blocks block_of deflate_uncompressed_block get_le16
    deflate_block bits_left block_loop copy_pair copy_back huffman_dynamic_tree dynamic_lengths
    build_trees read_lengths repeat_of write_lengths read_code_lengths huffman_tree place offsets
    count_lengths put decode_symbol decode_from at get_extra_bits get_bits fill
dynamic_runs = refl

-- The check value of RFC 1952 is taken of these bytes.
abbrev digits : List ℕ
digits = 49 ∷ 50 ∷ 51 ∷ 52 ∷ 53 ∷ 54 ∷ 55 ∷ 56 ∷ 57 ∷ []

crc_runs : update_crc32 digits ≡ 0xCBF43926
unfolding update_crc32 crc_loop crc_nibble
crc_runs = refl

update_crc32-crc32_example : update_crc32 digits ≡ crc32 digits
update_crc32-crc32_example = update_crc32-crc32 digits

dynamic_returns : deflate_buffer stale stale dynamic ≢ fault
dynamic_returns e = ok≢fault (sym dynamic_runs ∙ ap output e)

deflate_buffer-Sized_example : Returns Sized (deflate_buffer stale stale dynamic)
deflate_buffer-Sized_example = deflate_buffer-Sized stale stale dynamic dynamic_returns

-- Two blocks, in a file with a name.
abbrev stamp : Stamp
stamp = record { time = 0x65A0B0C0; extra_flags = 2; system = 11 }

decompress_gzip-gzip_example :
    decompress_gzip stale stale (gzip stamp (some (107 ∷ [])) (1 ∷ 2 ∷ []) ((3 ∷ []) ∷ []))
    ≡ ok (some (1 ∷ 2 ∷ 3 ∷ []))
decompress_gzip-gzip_example =
    decompress_gzip-gzip stale stale stamp (some (107 ∷ [])) (1 ∷ 2 ∷ []) ((3 ∷ []) ∷ [])
      (omega arith, tt) (omega arith) (omega arith, tt)
      (omega arith, (omega arith, (omega arith, tt)))

-- A byte, none of which is read yet.
abbrev start : Inflate
start = inflate_start stale stale (165 ∷ [])

start-Clean : Clean start
unfolding inflate_start
start-Clean = record {
  fine = refl;
  below = omega arith;
  small = omega arith;
  bytes = (omega arith, tt);
}

get_bits-Bits_example : Returns (Bits 3 start) (get_bits 3 start)
get_bits-Bits_example = get_bits-Bits 3 start start-Clean (omega arith)

-- Codes of one bit and of two.
abbrev short_codes : List ℕ
short_codes = 1 ∷ 2 ∷ 2 ∷ []

short_codes-Alphabet : Alphabet short_codes stale.sorted_symbols
short_codes-Alphabet = record {
  short = (omega arith, (omega arith, (omega arith, tt)));
  room = omega arith;
  few = omega arith;
}

huffman_tree-decode_symbol_example :
    Returns (Decoded 2 1 41 start) (huffman_tree short_codes stale >>= λ t. decode_symbol t start)
unfolding symbol_code bl_count_of counts_from occurrences next_code inflate_start code_bits
    bits_left little_endian
huffman_tree-decode_symbol_example =
    huffman_tree-decode_symbol short_codes stale 1 2 41 start short_codes-Alphabet refl
      (omega arith) (omega arith) start-Clean refl (omega arith)
