-- ===== src/Printf/Number.antt =====
-- `format_int`, `ap_format_int` and `format_str` of uklib/io_buffer/vsnprintf.c.
use Prim.Native.Nat.{bit_and}
use cyanea.Prelude.{
  ℕ, zero, suc, ◌+◌, ◌-◌, ◌/◌, ◌%◌, ◌^◌, Bool, not, ◌&&◌, ◌||◌, List, [], ◌∷◌, ◌++◌, Option, none,
  some, ltb, leb, ◌==◌, if◌then◌else◌, length, take, replicate, Run, ok, fault,
}

-- `FL_ZERO`, `FL_MINUS`, `FL_PLUS`, `FL_SPACE`, `FL_HASH`, `FL_SIGNED` and `FL_UPPER`
abbrev pub fl_zero : ℕ
fl_zero = 1

abbrev pub fl_minus : ℕ
fl_minus = 2

abbrev pub fl_plus : ℕ
fl_plus = 4

abbrev pub fl_space : ℕ
fl_space = 8

abbrev pub fl_hash : ℕ
fl_hash = 16

abbrev pub fl_signed : ℕ
fl_signed = 32

abbrev pub fl_upper : ℕ
fl_upper = 64

-- `flags & flag`, as a condition.
unfoldable pub has : ℕ → ℕ → Bool
has flags flag = not (bit_and flags flag == 0)

unfoldable pub put_padding : Bool → ℕ → ℕ → ℕ → List ℕ
put_padding condition c width nchar =
    if condition && ltb nchar width then replicate (width - nchar) c else []

-- `digits(flags)[d]`, for a digit below 16.
unfoldable pub digit_char : Bool → ℕ → ℕ
digit_char upper d =
    if ltb d 10 then b'0' + d else if upper then b'A' + (d - 10) else b'a' + (d - 10)

-- The `do` loop that counts the digits; a word has `fuel` of them at most.
unfoldable pub count_digits : ℕ → ℕ → ℕ → ℕ
count_digits zero base value = 0
count_digits (suc fuel) base value =
    let more = count_digits fuel base (value / base) in if value / base == 0 then 1 else suc more

-- The loop that stores `n` digits, from the last one on.
unfoldable pub store_digits : Bool → ℕ → ℕ → ℕ → List ℕ
store_digits upper zero base value = []
store_digits upper (suc n) base value =
    store_digits upper n base (value / base) ++ digit_char upper (value % base) ∷ []

-- The precision is none where it is -1.
abbrev pub at_least : ℕ → Option ℕ → ℕ
at_least n none = n
at_least n (some precision) = if ltb n precision then precision else n

abbrev pub sign : Bool → ℕ → List ℕ
sign minus flags =
    if minus
    then b'-' ∷ []
    else if has flags fl_plus
    then b'+' ∷ []
    else if has flags fl_space
    then b' ' ∷ []
    else []

abbrev pub prefix : ℕ → ℕ → List ℕ
prefix flags base =
    if has flags fl_hash
    then (if base == 16
        then b'0' ∷ (if has flags fl_upper then b'X' else b'x') ∷ []
        else if base == 8
        then b'0' ∷ []
        else [])
    else []

-- `nchar`, which is counted before anything is written.
abbrev pub count_chars : ℕ → Bool → ℕ → ℕ → ℕ
count_chars ndigits minus flags base =
    let signed =
      if minus || has flags fl_plus || has flags fl_space then ndigits + 1 else ndigits in
    if has flags fl_hash
    then (if base == 16 then signed + 2 else if base == 8 then signed + 1 else signed)
    else signed

-- What is written for a number of `ndigits` digits: there is room for 64 in `t_str`.
unfoldable pub write_int : Bool → ℕ → ℕ → ℕ → ℕ → ℕ → Run (List ℕ)
write_int minus value flags base width ndigits =
    let nchar = count_chars ndigits minus flags base in
    if ltb 64 ndigits
    then fault
    else ok (
        put_padding (not (has flags fl_minus) && not (has flags fl_zero)) b' ' width nchar
        ++ sign minus flags
        ++ prefix flags base
        ++ put_padding (not (has flags fl_minus) && has flags fl_zero) b'0' width nchar
        ++ store_digits (has flags fl_upper) ndigits base value
        ++ put_padding (has flags fl_minus) b' ' width nchar)

-- `value` is a 64-bit word.
unfoldable pub format_int : ℕ → ℕ → ℕ → ℕ → Option ℕ → Run (List ℕ)
format_int value flags base width precision =
    let minus = has flags fl_signed && leb (2 ^ 63) value in
    let size = if minus then (2 ^ 64 - value) % 2 ^ 64 else value in
    write_int minus size flags base width (at_least (count_digits 64 base size) precision)

-- An `int` is extended to 64 bits.
abbrev pub extend_int : ℕ → ℕ
extend_int word =
    let low = word % 2 ^ 32 in if leb (2 ^ 31) low then low + (2 ^ 64 - 2 ^ 32) else low

-- The argument as the rank takes it: `rank` counts from `RANK_CHAR`, which is 0.
unfoldable pub convert_arg : ℕ → ℕ → ℕ → ℕ
convert_arg rank flags word =
    if rank == 0
    then word % 2 ^ 8
    else if rank == 1
    then word % 2 ^ 16
    else if rank == 2
    then (if has flags fl_signed then extend_int word else word % 2 ^ 32)
    else word

-- `ap_format_int`, with the argument that it takes from the list.
unfoldable pub ap_format_int : ℕ → ℕ → ℕ → Option ℕ → ℕ → ℕ → Run (List ℕ)
ap_format_int base flags width precision rank word =
    format_int (convert_arg rank flags word) flags base width precision

abbrev pub at_most : ℕ → Option ℕ → ℕ
at_most n none = n
at_most n (some precision) = if ltb precision n then precision else n

-- A string of `length str` bytes.
unfoldable pub format_str : List ℕ → ℕ → ℕ → Option ℕ → List ℕ
format_str str flags width precision =
    let count = at_most (length str) precision in
    put_padding (not (has flags fl_minus)) b' ' width count
    ++ take count str
    ++ put_padding (has flags fl_minus) b' ' width count
