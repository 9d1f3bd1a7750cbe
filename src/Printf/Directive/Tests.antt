-- ===== src/Printf/Directive/Tests.antt =====
-- Runs of `iob_vsnprintf`.
use Prim.Native.String.{String}
use Prim.Native.Char.{code}
use cyanea.Prelude.{ℕ, ◌^◌, ◌-◌, ◌≡◌, refl, true, List, [], ◌∷◌, some, ok}
use cyanea.Ctype.{isx, isdigit}
use cyanea.Printf.Number.{
  has, put_padding, digit_char, count_digits, store_digits, write_int, format_int, convert_arg,
  ap_format_int, format_str,
}
use cyanea.Printf.Directive.{
  word, text, convert, modifiers, precision_step, width_step, flags_step, normal_step, step,
  format_loop, iob_vsnprintf,
}

abbrev codes : String → List ℕ
codes String.[] = []
codes (String.◌∷◌ c s) = code c ∷ codes s

table_runs :
    iob_vsnprintf
      (codes "[mem %#010llx] %-4d|%5s|100%%")
      (word 0xbeef ∷ word (2 ^ 64 - 7) ∷ text (some (codes "ab")) ∷ [])
    ≡ ok (true, codes "[mem 0x0000beef] -7  |   ab|100%")
unfolding iob_vsnprintf format_loop step normal_step flags_step width_step precision_step modifiers
    convert format_str ap_format_int convert_arg format_int write_int store_digits count_digits
    digit_char put_padding has isdigit isx
table_runs = refl

-- A signed character is printed without its sign.
signed_char_runs : iob_vsnprintf (codes "%hhd") (word (2 ^ 64 - 1) ∷ []) ≡ ok (true, codes "255")
unfolding iob_vsnprintf format_loop step normal_step flags_step width_step precision_step modifiers
    convert format_str ap_format_int convert_arg format_int write_int store_digits count_digits
    digit_char put_padding has isdigit isx
signed_char_runs = refl
