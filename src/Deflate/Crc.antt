-- ===== src/Deflate/Crc.antt =====
-- `update_crc32` of efi-boot/deflate.c: four bits at a time, from a table.
pub mod Xor
pub mod Bitwise
use Prim.Native.Nat.{bit_and, bit_xor}
use cyanea.Prelude.{ℕ, ◌/◌, ◌^◌, List, [], ◌∷◌, none, some, get_elem?}

-- `__crctab32`
abbrev pub crctab32 : List ℕ
crctab32 =
    0x00000000 ∷ 0x1DB71064 ∷ 0x3B6E20C8 ∷ 0x26D930AC ∷ 0x76DC4190 ∷ 0x6B6B51F4 ∷ 0x4DB26158
    ∷ 0x5005713C ∷ 0xEDB88320 ∷ 0xF00F9344 ∷ 0xD6D6A3E8 ∷ 0xCB61B38C ∷ 0x9B64C2B0 ∷ 0x86D3D2D4
    ∷ 0xA00AE278 ∷ 0xBDBDF21C ∷ []

-- An index below 16 is in the table.
abbrev pub table : ℕ → ℕ
table i = elim (get_elem? crctab32 i) [ none ↦ 0 | some x ↦ x ]

-- `crc = crctab32[crc & 0x0F] ^ (crc >> 4);`
unfoldable pub crc_nibble : ℕ → ℕ
crc_nibble crc = bit_xor (table (bit_and crc 15)) (crc / 2 ^ 4)

unfoldable pub crc_loop : ℕ → List ℕ → ℕ
crc_loop crc [] = crc
crc_loop crc (byte ∷ buffer) = crc_loop (crc_nibble (crc_nibble (bit_xor crc byte))) buffer

unfoldable pub update_crc32 : List ℕ → ℕ
update_crc32 [] = 0
update_crc32 (byte ∷ buffer) = bit_xor (crc_loop 0xFFFFFFFF (byte ∷ buffer)) 0xFFFFFFFF
