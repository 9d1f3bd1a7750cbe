-- ===== src/Deflate/Stream.antt =====
-- `get_bits` of efi-boot/deflate.c against the stream of bits that RFC 1951 speaks of: the bytes of
-- the input one behind the other, each from its lowest bit on.
use native.Mathlib.Nat.{
  pow-le-pow_right, mul-le-mul, mul-le-mul_right, add-mul, mul_assoc, mul_comm, mod-eq_of_lt,
  add-mul-mod_self_right, add-mul-div_right, div-lt_iff_lt-mul,
}
use cyanea.Prelude.{
  ℕ, ◌+◌, ◌-◌, ◌*◌, ◌/◌, ◌%◌, ◌^◌, ◌≤◌, ◌<◌, ◌≡◌, ◌⊎◌, refl, sym, ap, ◌∙◌, inl, inr, Bool-cases,
  true, false, bit_and, bit_or, List, [], ◌∷◌, All, ltb, leb, length, Returns, returns, arith,
}
use cyanea.Align.{pow_pos}
use cyanea.Bits.{bit_or_above, bit_and-low, pow_plus}
use cyanea.Deflate.State.{Inflate, is_none, err_overflow, Filled, fill, get_bits}
use cyanea.Deflate.Block.{bits_left}
use cyanea.Deflate.Crc.Bitwise.{IsByte}
use cyanea.Deflate.Progress.{fill-bits, fill-enough}

-- The bits of some bytes, as a number, and those of an accumulator in front of them.
unfoldable pub little_endian : List ℕ → ℕ
little_endian [] = 0
little_endian (byte ∷ bytes) = byte + little_endian bytes * 256

abbrev pub bits_of : ℕ → ℕ → List ℕ → ℕ
bits_of accum bits input = accum + little_endian input * 2 ^ bits

abbrev pub stream : Inflate → ℕ
stream d = bits_of d.bit_accum d.nr_bits d.input

record Kept (n accum bits : ℕ) (input : List ℕ) (f : Filled) : Type 0 where
  below : f.accum < 2 ^ f.bits
  small : f.bits < n + 8
  bytes : All IsByte f.rest
  same : bits_of f.accum f.bits f.rest ≡ bits_of accum bits input
  short : f.enough ≡ false → length input * 8 + bits < n

-- A byte above the bits that are there.
byte_above :
    (n byte accum bits : ℕ) (input : List ℕ)
    → n ≤ 16
    → bits < n
    → IsByte byte
    → accum < 2 ^ bits
    → (bit_or accum (byte * 2 ^ bits % 2 ^ 32) < 2 ^ (bits + 8))
      × (bits_of (bit_or accum (byte * 2 ^ bits % 2 ^ 32)) (bits + 8) input
          ≡ bits_of accum bits (byte ∷ input))
unfolding little_endian
byte_above n byte accum bits input most less b below =
    let p = 2 ^ bits in
    let le = little_endian input in
    let few : bits ≤ 16 = omega arith in
    let high : p ≤ 2 ^ 16 = pow-le-pow_right (omega arith) few in
    let one : byte ≤ 256 = omega arith in
    let fits : byte * p ≤ 256 * 2 ^ 16 = mul-le-mul one high in
    let plain : byte * p % 2 ^ 32 ≡ byte * p = mod-eq_of_lt (omega (arith, fits)) in
    let or : bit_or accum (byte * p % 2 ^ 32) ≡ accum + byte * p =
      ap (bit_or accum) plain ∙ bit_or_above bits accum byte below in
    let power : 2 ^ (bits + 8) ≡ p * 256 = pow_plus bits 8 in
    let byte_le : byte ≤ 255 = omega arith in
    let room : byte * p ≤ 255 * p = mul-le-mul_right p byte_le in
    let regroup : le * (p * 256) ≡ le * 256 * p =
      ap (λ t. le * t) (mul_comm p 256) ∙ sym (mul_assoc le 256 p) in
    (
      omega (arith, or, power, room, below),
      omega (arith, or, ap (λ t. le * t) power, regroup, add-mul byte (le * 256) p),
    )

fill-Kept :
    (n : ℕ) (input : List ℕ) (accum bits : ℕ)
    → n ≤ 16
    → bits < n + 8
    → All IsByte input
    → accum < 2 ^ bits
    → Kept n accum bits input (fill n input accum bits)
unfolding fill
fill-Kept n [] accum bits most small b below = record {
  below = below;
  small = small;
  bytes = tt;
  same = refl;
  short = λ h. ground arith;
}
fill-Kept n (byte ∷ input) accum bits most small (b, bs) below = elim (Bool-cases (ltb bits n)) [
  | inr e ↦ rw e (record {
    below = below;
    small = small;
    bytes = (b, bs);
    same = refl;
    short = λ h. absurd (ground arith);
  })
  | inl e ↦
      let (less, whole) = byte_above n byte accum bits input most (ground arith) b below in
      let k =
        fill-Kept n input (bit_or accum (byte * 2 ^ bits % 2 ^ 32)) (bits + 8) most (ground arith)
          bs less in
      rw e (record {
        below = k.below;
        small = k.small;
        bytes = k.bytes;
        same = k.same ∙ whole;
        short = λ h. omega (arith, k.short h);
      })
]

-- No error, and less than a byte in the accumulator.
pub record Clean (d : Inflate) : Type 0 where
  pub fine : is_none d.error ≡ true
  pub below : d.bit_accum < 2 ^ d.nr_bits
  pub small : d.nr_bits < 8
  pub bytes : All IsByte d.input

-- The `n` lowest bits of the stream are taken from it.
pub record Taken (n : ℕ) (d : Inflate) (bits : ℕ) (d' : Inflate) : Type 0 where
  pub value : bits ≡ stream d % 2 ^ n
  pub rest : stream d' ≡ stream d / 2 ^ n
  pub left : bits_left d' + n ≡ bits_left d
  pub clean : Clean d'

abbrev pub Bits : ℕ → Inflate → ℕ × Inflate → Type 0
Bits n d r =
    ((n ≤ bits_left d) × Taken n d r.0 r.1)
    ⊎ ((bits_left d < n) × (r.0 ≡ 0) × (r.1.error ≡ err_overflow))

-- Where the input runs short, there are fewer bits than are asked for.
fill-short :
    (n : ℕ) (input : List ℕ) (accum bits : ℕ)
    → (fill n input accum bits).enough ≡ false
    → (fill n input accum bits).bits < n
unfolding fill
fill-short n [] accum bits = λ h. ground arith
fill-short n (byte ∷ input) accum bits = elim (Bool-cases (ltb bits n)) [
  | inl e ↦ rw e (fill-short n input (bit_or accum (byte * 2 ^ bits % 2 ^ 32)) (bits + 8))
  | inr e ↦ rw e (λ h. absurd (ground arith))
]

-- The stream behind a full accumulator.
taken-stream :
    (n accum bits : ℕ) (input : List ℕ)
    → n ≤ bits
    → accum < 2 ^ bits
    → (bit_and accum (2 ^ n - 1) ≡ bits_of accum bits input % 2 ^ n)
      × (bits_of (accum / 2 ^ n) (bits - n) input ≡ bits_of accum bits input / 2 ^ n)
      × (accum / 2 ^ n < 2 ^ (bits - n))
taken-stream n accum bits input enough below =
    let p = 2 ^ n in
    let q = 2 ^ (bits - n) in
    let le = little_endian input in
    let sum : bits ≡ (bits - n) + n = omega arith in
    let power : 2 ^ bits ≡ q * p = ap (λ t. 2 ^ t) sum ∙ pow_plus (bits - n) n in
    let split : bits_of accum bits input ≡ accum + le * q * p =
      ap (λ t. accum + le * t) power ∙ ap (λ t. accum + t) (sym (mul_assoc le q p)) in
    (
      bit_and-low n accum ∙ sym (ap (λ t. t % p) split ∙ add-mul-mod_self_right accum (le * q) p),
      sym (ap (λ t. t / p) split ∙ add-mul-div_right accum (le * q) (pow_pos n)),
      (div-lt_iff_lt-mul (pow_pos n)).1 (omega (arith, below, power)),
    )

-- `get_bits` takes the lowest bits of the stream if there are as many, and else fails with
-- `err_overflow`.
pub get_bits-Bits : (n : ℕ) (d : Inflate) → Clean d → n ≤ 16 → Returns (Bits n d) (get_bits n d)
unfolding get_bits bits_left
get_bits-Bits n d c most =
    let f = fill n d.input d.bit_accum d.nr_bits in
    let k =
      fill-Kept n d.input d.bit_accum d.nr_bits most (let s = c.small in omega arith) c.bytes
        c.below in
    let count = fill-bits n d.input d.bit_accum d.nr_bits in
    let narrow : leb 32 n ≡ false = ground arith in
    elim (Bool-cases f.enough) [
      | inl e ↦
          let there = fill-enough n d.input d.bit_accum d.nr_bits e in
          let (value, rest, less) = taken-stream n f.accum f.bits f.rest there k.below in
          rw (c.fine, e, narrow)
            (returns _ (
              inl (
                omega (arith, count, there),
                record {
                  value = value ∙ ap (λ t. t % 2 ^ n) k.same;
                  rest = rest ∙ ap (λ t. t / 2 ^ n) k.same;
                  left = omega (arith, count, there);
                  clean = record {
                    fine = c.fine;
                    below = less;
                    small = let s = k.small in omega (arith, there);
                    bytes = k.bytes;
                  };
                },
              )))
      | inr e ↦
          let few : leb 40 f.bits ≡ false =
            ground (arith, fill-short n d.input d.bit_accum d.nr_bits e) in
          rw (c.fine, e, few) (returns _ (inr (k.short e, refl, refl)))
    ]
