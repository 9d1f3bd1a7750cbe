-- ===== src/Strtox.antt =====
-- uklib/io_buffer/strtox.c and uklib/strtox.c: numbers are read from a stream, or from a string.
pub mod Guess
pub mod Value
mod Tests
use cyanea.Prelude.{
  ℕ, zero, suc, ◌+◌, ◌-◌, ◌*◌, ◌/◌, ◌%◌, ◌^◌, ◌<◌, Bool, true, false, not, ◌&&◌, ◌||◌, List, [],
  ◌∷◌, Option, none, some, ltb, leb, ◌==◌, if◌then◌else◌, length, take, drop, Run, ok, fault,
  timeout, ◌>>=◌,
}
use cyanea.Ctype.{isdigit, isxdigit, isupper}
use cyanea.IoBuffer.Input.{Input, iob_read, iob_ungetc}

-- `none` is -1.
unfoldable pub digit_value : ℕ → Option ℕ
digit_value ch =
    if not (isdigit ch == 0)
    then some (ch - b'0')
    else if not (isxdigit ch == 0)
    then (if not (isupper ch == 0) then some (ch - b'A' + 10) else some (ch - b'a' + 10))
    else none

-- `__iob_ungetc`, where what it returns is ignored.
unfoldable pub unget : ℕ → Input → Run Input
unget c io = iob_ungetc c io >>= λ (p, io'). ok io'

-- `result & (ULLONG_MAX << 60)`, and then the division.
abbrev pub overflows : ℕ → ℕ → ℕ → Bool
overflows base result v = leb (2 ^ 60) result && ltb ((2 ^ 64 - 1 - v) / base) result

-- A result that may be out of range, with the state behind it.
abbrev pub Parsed : Type 0 → Type 0
Parsed S = Option ℕ × Input × S

module _ {S : Type 0} (read : ℕ → S → List ℕ × S) (flush : Input → S → Run (Bool × Input × S)) where
  -- The base that a leading 0 or 0x stands for.
  unfoldable pub guess_base : Input → S → Run (ℕ × Input × S)
  guess_base io s = iob_read read flush 1 io s >>= λ (got, io₁, s₁). elim got [
    | [] ↦ ok (0, io₁, s₁)
    | c ∷ _ ↦ elim (c == b'0') [
      | false ↦ unget c io₁ >>= λ io₂. ok (10, io₂, s₁)
      | true ↦ iob_read read flush 1 io₁ s₁ >>= λ (got', io₂, s₂). elim got' [
        | [] ↦ ok (8, io₂, s₂)
        | x ∷ _ ↦ elim (x == b'x' || x == b'X') [
          | true ↦ ok (16, io₂, s₂)
          | false ↦ unget x io₂ >>= λ io₃. ok (8, io₃, s₂)
        ]
      ]
    ]
  ]

  -- A leading 0x is skipped.
  unfoldable pub skip_prefix : Input → S → Run (Input × S)
  skip_prefix io s = iob_read read flush 2 io s >>= λ (got, io₁, s₁). elim got [
    | [] ↦ ok (io₁, s₁)
    | c ∷ more ↦ elim more [
      | [] ↦ unget c io₁ >>= λ io₂. ok (io₂, s₁)
      | x ∷ _ ↦ elim (not (c == b'0') || (not (x == b'x') && not (x == b'X'))) [
        | true ↦ unget x io₁ >>= λ io₂. unget c io₂ >>= λ io₃. ok (io₃, s₁)
        | false ↦ ok (io₁, s₁)
      ]
    ]
  ]

  -- The loop over the digits, `fuel` at most; `none` is `-ERANGE`.
  unfoldable pub digit_loop : ℕ → ℕ → ℕ → Input → S → Run (Parsed S)
  digit_loop zero base result io s = timeout
  digit_loop (suc fuel) base result io s = iob_read read flush 1 io s >>= λ (got, io₁, s₁).
      elim got [
        | [] ↦ ok (some result, io₁, s₁)
        | c ∷ _ ↦ elim (digit_value c) [
          | none ↦ unget c io₁ >>= λ io₂. ok (some result, io₂, s₁)
          | some v ↦ elim (ltb v base) [
            | false ↦ unget c io₁ >>= λ io₂. ok (some result, io₂, s₁)
            | true ↦ elim (overflows base result v) [
              | true ↦ unget c io₁ >>= λ io₂. ok (none, io₂, s₁)
              | false ↦ digit_loop fuel base ((result * base + v) % 2 ^ 64) io₁ s₁
            ]
          ]
        ]
      ]

  unfoldable pub iob_strtoull : ℕ → ℕ → Input → S → Run (Parsed S)
  iob_strtoull fuel base io s =
      if base == 0
      then (guess_base io s >>= λ (base', io', s'). digit_loop fuel base' 0 io' s')
      else if base == 16
      then (skip_prefix io s >>= λ (io', s'). digit_loop fuel base 0 io' s')
      else digit_loop fuel base 0 io s

-- What `strtoll` leaves: `-ERANGE`, or success with the 64-bit word of the result, or success
-- without one.
pub data Signed : Type 0 where
  erange no_result : Signed
  result : ℕ → Signed

abbrev pub negated : Option ℕ → Signed
negated none = erange
negated (some r) =
    let word = (2 ^ 64 - r) % 2 ^ 64 in
    if ltb 0 word && ltb word (2 ^ 63) then erange else result word

abbrev pub unsigned : Option ℕ → Signed
unsigned none = erange
unsigned (some r) = if leb (2 ^ 63) r then erange else result r

module _ {S : Type 0} (read : ℕ → S → List ℕ × S) (flush : Input → S → Run (Bool × Input × S)) where
  unfoldable pub iob_strtoll : ℕ → ℕ → Input → S → Run (Signed × Input × S)
  iob_strtoll fuel base io s = iob_read read flush 1 io s >>= λ (got, io₁, s₁). elim got [
    | [] ↦ ok (no_result, io₁, s₁)
    | c ∷ _ ↦ elim (c == b'-') [
      | true ↦ iob_strtoull read flush fuel base io₁ s₁ >>= λ (r, io₂, s₂). ok (negated r, io₂, s₂)
      | false ↦ (if c == b'+' then ok io₁ else unget c io₁) >>= λ io₂.
          iob_strtoull read flush fuel base io₂ s₁ >>= λ (r, io₃, s₂). ok (unsigned r, io₃, s₂)
    ]
  ]

-- `iob_read` of uklib/strtox.c: the device is what is left of the string.
abbrev pub read_string : ℕ → List ℕ → List ℕ × List ℕ
read_string count str = (take count str, drop count str)

-- There is no `flush`: a call through the NULL pointer.
abbrev pub no_flush : Input → List ℕ → Run (Bool × Input × List ℕ)
no_flush io str = fault

-- `scratch` is what `scratch_buf` holds at first.
abbrev pub scratch_input : List ℕ → Input
scratch_input scratch = record {
  in_count = 0;
  out_count = 0;
  bytes = scratch;
  buf_size = 32;
  inptr = none;
  io_unget_slop = 0;
}

-- `strtoull`, and `strtoul`, whose result has as many bits; `none` is `-ERANGE`.
unfoldable pub strtoull : List ℕ → List ℕ → ℕ → Run (Option ℕ)
strtoull scratch str base =
    iob_strtoull read_string no_flush (length str + 1) base (scratch_input scratch) str
    >>= λ (r, io', rest). ok r

-- `strtoll`, and `strtol`.
unfoldable pub strtoll : List ℕ → List ℕ → ℕ → Run Signed
strtoll scratch str base =
    iob_strtoll read_string no_flush (length str + 1) base (scratch_input scratch) str
    >>= λ (r, io', rest). ok r
