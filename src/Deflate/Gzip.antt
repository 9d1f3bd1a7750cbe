-- ===== src/Deflate/Gzip.antt =====
-- `decompress_gzip` of efi-boot/deflate.c.
pub mod RoundTrip
use Prim.Native.Nat.{bit_and}
use cyanea.Prelude.{
  ℕ, ◌+◌, ◌-◌, ◌*◌, ◌%◌, ◌^◌, Bool, true, false, not, ◌||◌, List, [], ◌∷◌, Option, none, some, ltb,
  ◌==◌, if◌then◌else◌, length, take, drop, Run, ok, ◌>>=◌,
}
use cyanea.Deflate.State.{Tree, is_none}
use cyanea.Deflate.Huffman.{at}
use cyanea.Deflate.Block.{get_le16, deflate_buffer}
use cyanea.Deflate.Crc.{update_crc32}

-- `get_unaligned_le32`
unfoldable pub get_le32 : List ℕ → Run ℕ
get_le32 bytes =
    get_le16 bytes >>= λ low. get_le16 (drop 2 bytes) >>= λ high. ok (low + high * 2 ^ 16)

-- `do { if (start == end) return -EINVAL; } while (*start++);`: where the string ends.
unfoldable pub skip_string : ℕ → List ℕ → Option ℕ
skip_string start [] = none
skip_string start (ch ∷ bytes) =
    let later = skip_string (start + 1) bytes in if ch == 0 then some (start + 1) else later

-- The first bytes of a file that the function accepts.
unfoldable pub bad_header : List ℕ → Run Bool
bad_header source =
    if ltb (length source) 18
    then ok true
    else at source 0 >>= λ id1. at source 1 >>= λ id2. at source 2 >>= λ method.
        at source 3 >>= λ flag. ok (
          not (id1 == 0x1F)
          || not (id2 == 0x8B)
          || not (method == 8)
          || not (bit_and flag 0xE0 == 0))

-- Where the next part of the header starts; `none` is `-EINVAL`.
unfoldable pub skip_extra : ℕ → List ℕ → ℕ → Run (Option ℕ)
skip_extra flag source start =
    if bit_and flag 4 == 0
    then ok (some start)
    else get_le16 (drop start source) >>= λ len.
        let next = start + len + 2 in ok (if ltb (length source) next then none else some next)

unfoldable pub skip_text : ℕ → ℕ → List ℕ → ℕ → Run (Option ℕ)
skip_text bit flag source start =
    ok (if bit_and flag bit == 0 then some start else skip_string start (drop start source))

unfoldable pub check_header_crc : ℕ → List ℕ → ℕ → Run (Option ℕ)
check_header_crc flag source start =
    if bit_and flag 2 == 0
    then ok (some start)
    else if ltb (length source) (start + 2)
    then ok none
    else get_le16 (drop start source) >>= λ crc16.
        ok (if update_crc32 (take start source) % 2 ^ 16 == crc16 then some (start + 2) else none)

-- One part behind the other.
abbrev pub then_skip : Run (Option ℕ) → (ℕ → Run (Option ℕ)) → Run (Option ℕ)
then_skip r next = r >>= λ found. elim found [ none ↦ ok none | some start ↦ next start ]

-- The header's length.
unfoldable pub header_end : List ℕ → Run (Option ℕ)
header_end source = bad_header source >>= λ bad. elim bad [
  | true ↦ ok none
  | false ↦ at source 3 >>= λ flag.
      then_skip
        (then_skip (then_skip (skip_extra flag source 10) (skip_text 8 flag source))
          (skip_text 16 flag source))
        (check_header_crc flag source)
]

-- The bytes that are unpacked; `none` is `-EINVAL`. The trees are what stood on the stack before.
unfoldable pub decompress_gzip : Tree → Tree → List ℕ → Run (Option (List ℕ))
decompress_gzip ll distance source = header_end source >>= λ found. elim found [
  | none ↦ ok none
  | some start ↦ elim (ltb (length source) (start + 8)) [
    | true ↦ ok none
    | false ↦
        deflate_buffer ll distance (take (length source - start - 8) (drop start source)) >>= λ d.
        elim (is_none d.error) [
          | false ↦ ok none
          | true ↦ get_le32 (drop (length source - 8) source) >>= λ crc.
              let dest = take d.dest_size d.out in
              ok (if update_crc32 dest == crc then some dest else none)
        ]
  ]
]
