-- ===== src/Deflate/Crc/Bitwise.antt =====
-- `update_crc32` of efi-boot/deflate.c takes four bits at a time; the definition in RFC 1952 takes
-- one.
use Prim.Native.Nat.{bit_and, bit_xor}
use native.Mathlib.Nat.{div-add-mod'}
use cyanea.Prelude.{
  ℕ, ◌+◌, ◌*◌, ◌/◌, ◌%◌, ◌^◌, ◌<◌, ◌≡◌, refl, sym, ap, ◌∙◌, inl, inr, Bool, true, false, List, [],
  ◌∷◌, All, arith, ◌==◌, if◌then◌else◌, every, every_sound, Bool-cases,
}
use cyanea.Align.{bit_and_step, bit_and-zero}
use cyanea.Deflate.Crc.{table, crc_nibble, crc_loop, update_crc32}
use cyanea.Deflate.Crc.Xor.{
  zero-bit_xor, bit_xor_step, bit_xor-half, bit_xor-odd, bit_xor_comm, bit_xor_assoc, bit_xor_self,
  bit_xor-zero, bit_xor_lt,
}

-- The polynomial of RFC 1952, and its steps for a bit, a byte and a buffer.
abbrev pub polynomial : ℕ
polynomial = 0xEDB88320

unfoldable pub crc_bit : ℕ → ℕ
crc_bit crc = if crc % 2 == 1 then bit_xor polynomial (crc / 2) else crc / 2

abbrev pub four_bits : ℕ → ℕ
four_bits crc = crc_bit (crc_bit (crc_bit (crc_bit crc)))

unfoldable pub crc_bytes : ℕ → List ℕ → ℕ
crc_bytes crc [] = crc
crc_bytes crc (byte ∷ bytes) = crc_bytes (four_bits (four_bits (bit_xor crc byte))) bytes

abbrev pub crc32 : List ℕ → ℕ
crc32 bytes = bit_xor (crc_bytes 0xFFFFFFFF bytes) 0xFFFFFFFF

abbrev mask : Bool → ℕ
mask true = polynomial
mask false = 0

crc_bit-mask : (c : ℕ) → crc_bit c ≡ bit_xor (mask (c % 2 == 1)) (c / 2)
unfolding crc_bit
crc_bit-mask c = elim (Bool-cases (c % 2 == 1)) [
  | inl e ↦ rw e refl
  | inr e ↦ rw e (sym (zero-bit_xor (c / 2)))
]

swap : (a b c d : ℕ) → bit_xor (bit_xor a b) (bit_xor c d) ≡ bit_xor (bit_xor a c) (bit_xor b d)
swap a b c d =
    bit_xor_assoc a b (bit_xor c d)
    ∙ ap (bit_xor a)
        (sym (bit_xor_assoc b c d) ∙ ap (λ t. bit_xor t d) (bit_xor_comm b c) ∙ bit_xor_assoc c b d)
    ∙ sym (bit_xor_assoc a c (bit_xor b d))

mask-bit_xor :
    (x y : ℕ) → mask (bit_xor x y % 2 == 1) ≡ bit_xor (mask (x % 2 == 1)) (mask (y % 2 == 1))
mask-bit_xor x y = elim (Bool-cases (x % 2 == 1)) [
  | inl e ↦ elim (Bool-cases (y % 2 == 1)) [
    | inl f ↦
        let g : (bit_xor x y % 2 == 1) ≡ false = ground (arith, bit_xor-odd x y) in
        rw (e, f, g) (sym (bit_xor_self polynomial))
    | inr f ↦
        let g : (bit_xor x y % 2 == 1) ≡ true = ground (arith, bit_xor-odd x y) in
        rw (e, f, g) (sym (bit_xor-zero polynomial))
  ]
  | inr e ↦ elim (Bool-cases (y % 2 == 1)) [
    | inl f ↦
        let g : (bit_xor x y % 2 == 1) ≡ true = ground (arith, bit_xor-odd x y) in
        rw (e, f, g) (sym (zero-bit_xor polynomial))
    | inr f ↦
        let g : (bit_xor x y % 2 == 1) ≡ false = ground (arith, bit_xor-odd x y) in
        rw (e, f, g) (sym (zero-bit_xor 0))
  ]
]

-- The step for a bit is linear.
crc_bit-bit_xor : (x y : ℕ) → crc_bit (bit_xor x y) ≡ bit_xor (crc_bit x) (crc_bit y)
crc_bit-bit_xor x y =
    rw
      (
        crc_bit-mask (bit_xor x y),
        crc_bit-mask x,
        crc_bit-mask y,
        mask-bit_xor x y,
        bit_xor-half x y,
      )
      (swap (mask (x % 2 == 1)) (mask (y % 2 == 1)) (x / 2) (y / 2))

four_bits-bit_xor : (x y : ℕ) → four_bits (bit_xor x y) ≡ bit_xor (four_bits x) (four_bits y)
four_bits-bit_xor x y =
    rw
      (
        crc_bit-bit_xor x y,
        crc_bit-bit_xor (crc_bit x) (crc_bit y),
        crc_bit-bit_xor (crc_bit (crc_bit x)) (crc_bit (crc_bit y)),
      )
      (crc_bit-bit_xor (crc_bit (crc_bit (crc_bit x))) (crc_bit (crc_bit (crc_bit y))))

crc_bit-even : (m : ℕ) → crc_bit (m * 2) ≡ m
unfolding crc_bit
crc_bit-even m = ground arith

four_bits-high : (m : ℕ) → four_bits (m * 16) ≡ m
four_bits-high m =
    let split : m * 16 ≡ m * 2 * 2 * 2 * 2 = omega arith in
    rw (split, crc_bit-even (m * 2 * 2 * 2), crc_bit-even (m * 2 * 2), crc_bit-even (m * 2))
      (crc_bit-even m)

abbrev in_table : ℕ → Bool
in_table l = four_bits l == table l

in_table_all : every in_table 16 ≡ true
unfolding crc_bit
in_table_all = refl

four_bits-table : (l : ℕ) → l < 16 → four_bits l ≡ table l
four_bits-table l h =
    let e : in_table l ≡ true = every_sound in_table 16 l in_table_all h in ground arith

-- The low four bits and the others.
bit_xor_low : (m l : ℕ) → l < 16 → bit_xor (m * 16) l ≡ m * 16 + l
bit_xor_low m l h =
    let h1 : m * 16 / 2 ≡ m * 8 = omega arith in
    let h2 : m * 8 / 2 ≡ m * 4 = omega arith in
    let h3 : m * 4 / 2 ≡ m * 2 = omega arith in
    let h4 : m * 2 / 2 ≡ m = omega arith in
    let l4 : l / 2 / 2 / 2 / 2 ≡ 0 = omega arith in
    let s1 = bit_xor_step (m * 16) l in
    let s2 = bit_xor_step (m * 8) (l / 2) in
    let s3 = bit_xor_step (m * 4) (l / 2 / 2) in
    let s4 = bit_xor_step (m * 2) (l / 2 / 2 / 2) in
    omega (
      arith,
      s1,
      s2,
      s3,
      s4,
      ap (λ t. bit_xor t (l / 2)) h1,
      ap (λ t. bit_xor t (l / 2 / 2)) h2,
      ap (λ t. bit_xor t (l / 2 / 2 / 2)) h3,
      ap (λ t. bit_xor t (l / 2 / 2 / 2 / 2)) h4,
      ap (bit_xor m) l4,
      bit_xor-zero m,
    )

bit_and_low : (c : ℕ) → bit_and c 15 ≡ c % 16
bit_and_low c =
    let c1 = c / 2 in
    let c2 = c1 / 2 in
    let c3 = c2 / 2 in
    let c4 = c3 / 2 in
    omega (
      arith,
      bit_and_step c 15,
      bit_and_step c1 7,
      bit_and_step c2 3,
      bit_and_step c3 1,
      bit_and-zero c4 c4 (omega arith),
    )

crc_nibble-four_bits : (c : ℕ) → crc_nibble c ≡ four_bits c
unfolding crc_nibble
crc_nibble-four_bits c =
    let low = c % 16 in
    let high = c / 16 in
    let whole : c ≡ bit_xor (high * 16) low =
      sym (bit_xor_low high low (omega arith) ∙ div-add-mod' c 16) in
    ap (λ t. bit_xor (table t) (c / 2 ^ 4)) (bit_and_low c)
    ∙ bit_xor_comm (table low) high
    ∙ sym (
        ap four_bits whole
        ∙ four_bits-bit_xor (high * 16) low
        ∙ ap (λ t. bit_xor t (four_bits low)) (four_bits-high high)
        ∙ ap (bit_xor high) (four_bits-table low (omega arith)))

crc_loop-crc_bytes : (crc : ℕ) (bytes : List ℕ) → crc_loop crc bytes ≡ crc_bytes crc bytes
unfolding crc_loop crc_bytes
crc_loop-crc_bytes crc [] = refl
crc_loop-crc_bytes crc (byte ∷ bytes) =
    let c = bit_xor crc byte in
    crc_loop-crc_bytes (crc_nibble (crc_nibble c)) bytes
    ∙ ap (λ t. crc_bytes t bytes)
        (crc_nibble-four_bits (crc_nibble c) ∙ ap four_bits (crc_nibble-four_bits c))

-- The checksum by the table of 16 entries is the one of RFC 1952, which goes bit by bit, for every
-- buffer.
pub update_crc32-crc32 : (bytes : List ℕ) → update_crc32 bytes ≡ crc32 bytes
unfolding update_crc32 crc_bytes
update_crc32-crc32 [] = refl
update_crc32-crc32 (byte ∷ bytes) =
    ap (λ t. bit_xor t 0xFFFFFFFF) (crc_loop-crc_bytes 0xFFFFFFFF (byte ∷ bytes))

-- A checksum has 32 bits.
crc_bit_lt : (c : ℕ) → c < 2 ^ 32 → crc_bit c < 2 ^ 32
unfolding crc_bit
crc_bit_lt c h = elim (Bool-cases (c % 2 == 1)) [
  | inl e ↦ rw e (bit_xor_lt 32 polynomial (c / 2) (omega arith) (omega arith))
  | inr e ↦ rw e (omega arith)
]

four_bits_lt : (c : ℕ) → c < 2 ^ 32 → four_bits c < 2 ^ 32
four_bits_lt c h =
    crc_bit_lt (crc_bit (crc_bit (crc_bit c)))
      (crc_bit_lt (crc_bit (crc_bit c)) (crc_bit_lt (crc_bit c) (crc_bit_lt c h)))

abbrev pub IsByte : ℕ → Type 0
IsByte b = b < 256

crc_bytes_lt :
    (crc : ℕ) (bytes : List ℕ) → crc < 2 ^ 32 → All IsByte bytes → crc_bytes crc bytes < 2 ^ 32
unfolding crc_bytes
crc_bytes_lt crc [] h hs = h
crc_bytes_lt crc (byte ∷ bytes) h (b, hs) =
    let x = bit_xor crc byte in
    crc_bytes_lt (four_bits (four_bits x)) bytes
      (four_bits_lt (four_bits x) (four_bits_lt x (bit_xor_lt 32 crc byte h (omega arith)))) hs

pub update_crc32_lt : (bytes : List ℕ) → All IsByte bytes → update_crc32 bytes < 2 ^ 32
update_crc32_lt bytes h = rw (update_crc32-crc32 bytes) (
    bit_xor_lt 32 (crc_bytes 0xFFFFFFFF bytes) 0xFFFFFFFF
      (crc_bytes_lt 0xFFFFFFFF bytes (omega arith) h) (omega arith))
