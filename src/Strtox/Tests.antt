-- ===== src/Strtox/Tests.antt =====
-- Runs of uklib/strtox.c.
use cyanea.Prelude.{ℕ, ◌^◌, ◌-◌, ◌≡◌, refl, List, [], ◌∷◌, some, replicate, ok, arith}
use cyanea.Ctype.{isx, isdigit, isxdigit, isupper}
use cyanea.IoBuffer.Input.{iob_ungetc, refill, take_out, read_loop, iob_read}
use cyanea.Strtox.Value.{in_range, value, digits, numeral, strtoull-value}
use cyanea.Strtox.{
  digit_value, unget, guess_base, skip_prefix, digit_loop, iob_strtoull, iob_strtoll, strtoull,
  strtoll, result, no_result,
}

abbrev zeros : List ℕ
zeros = replicate 32 0

-- 0x1fz, with the base left open.
hex_runs : strtoull zeros (b'0' ∷ b'x' ∷ b'1' ∷ b'f' ∷ b'z' ∷ []) 0 ≡ ok (some 31)
unfolding strtoull iob_strtoull guess_base skip_prefix digit_loop unget digit_value isdigit isxdigit
    isupper isx iob_read read_loop take_out refill iob_ungetc
hex_runs = refl

minus_runs : strtoll zeros (b'-' ∷ b'7' ∷ b'1' ∷ []) 10 ≡ ok (result (2 ^ 64 - 71))
unfolding strtoll iob_strtoll iob_strtoull digit_loop unget digit_value isdigit isxdigit isupper isx
    iob_read read_loop take_out refill iob_ungetc
minus_runs = refl

-- An empty string is a success without a result.
empty_runs : strtoll zeros [] 10 ≡ ok no_result
unfolding strtoll iob_strtoll iob_read read_loop take_out refill
empty_runs = refl

strtoull-value_example :
    strtoull zeros (b'0' ∷ b'x' ∷ b'1' ∷ b'f' ∷ b'z' ∷ []) 0
    ≡ ok (
        in_range (
          value (numeral 0 (b'0' ∷ b'x' ∷ b'1' ∷ b'f' ∷ b'z' ∷ [])).0 0 (
            digits
              (numeral 0 (b'0' ∷ b'x' ∷ b'1' ∷ b'f' ∷ b'z' ∷ [])).0
              (numeral 0 (b'0' ∷ b'x' ∷ b'1' ∷ b'f' ∷ b'z' ∷ [])).1)))
strtoull-value_example =
    strtoull-value zeros (b'0' ∷ b'x' ∷ b'1' ∷ b'f' ∷ b'z' ∷ []) 0 (omega arith)
