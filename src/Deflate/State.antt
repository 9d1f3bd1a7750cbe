-- ===== src/Deflate/State.antt =====
-- The state of the decompressor in efi-boot/deflate.c, and the bits it takes from its input.
use Prim.Native.Nat.{bit_and, bit_or}
use cyanea.Prelude.{
  ℕ, ◌+◌, ◌-◌, ◌*◌, ◌/◌, ◌%◌, ◌^◌, Bool, true, false, not, List, [], ◌∷◌, ltb, leb, ◌==◌,
  if◌then◌else◌, Run, ok, fault, ◌>>=◌,
}

-- `MAX_BITS`, `MAX_SYMBOLS` and `MAX_DISTANCE`
abbrev pub max_bits : ℕ
max_bits = 16

abbrev pub max_symbols : ℕ
max_symbols = 288

abbrev pub max_distance : ℕ
max_distance = 32

-- `struct tree`: two arrays, of `max_bits` and `max_symbols` entries.
pub record Tree : Type 0 where
  pub bl_count : List ℕ
  pub sorted_symbols : List ℕ

-- `ERR_NONE`, `ERR_OVERFLOW`, `ERR_SYMBOL` and `ERR_UNDEFINED`
pub data Error : Type 0 where
  err_none err_overflow err_symbol err_undefined : Error

-- `struct deflate`: `input` are the bytes from `in_ptr` up to `in_end`, and `out` the bytes that are
-- written, up to `dest`.
pub record Inflate : Type 0 where
  pub input : List ℕ
  pub out : List ℕ
  pub error : Error
  pub bit_accum : ℕ
  pub nr_bits : ℕ
  pub dest_size : ℕ
  pub ll : Tree
  pub distance : Tree

abbrev pub is_none : Error → Bool
is_none err_none = true
is_none err_overflow = false
is_none err_symbol = false
is_none err_undefined = false

-- The loop of `get_bits`: whether there are `n` bits, the input that is left, and the accumulator
-- with its number of bits.
pub record Filled : Type 0 where
  pub enough : Bool
  pub rest : List ℕ
  pub accum : ℕ
  pub bits : ℕ

unfoldable pub fill : ℕ → List ℕ → ℕ → ℕ → Filled
fill n [] accum bits = record { enough = leb n bits; rest = []; accum = accum; bits = bits }
fill n (byte ∷ input) accum bits =
    let more = fill n input (bit_or accum (byte * 2 ^ bits % 2 ^ 32)) (bits + 8) in
    if ltb bits n
    then more
    else record { enough = true; rest = byte ∷ input; accum = accum; bits = bits }

-- After an error nothing is read. A shift of 32 bits by 32 or more is undefined: that of the mask, or
-- that of a byte behind 32 bits or more, after which there are 40 bits or more.
unfoldable pub get_bits : ℕ → Inflate → Run (ℕ × Inflate)
get_bits n d =
    let f = fill n d.input d.bit_accum d.nr_bits in
    let read = record d { input = f.rest; bit_accum = f.accum / 2 ^ n; nr_bits = f.bits - n } in
    let short = record d {
      input = f.rest;
      bit_accum = f.accum;
      nr_bits = f.bits;
      error = err_overflow;
    } in
    if not (is_none d.error)
    then ok (0, d)
    else if f.enough
    then (if leb 32 n then fault else ok (bit_and f.accum (2 ^ n - 1), read))
    else if leb 40 f.bits
    then fault
    else ok (0, short)

unfoldable pub get_extra_bits : ℕ → ℕ → Inflate → Run (ℕ × Inflate)
get_extra_bits n base d =
    if n == 0 then ok (base, d) else get_bits n d >>= λ (bits, d'). ok ((base + bits) % 2 ^ 32, d')
