-- ===== src/Printf/Directive.antt =====
-- `iob_vsnprintf` of uklib/io_buffer/vsnprintf.c: the state machine over the format.
mod Tests
use Prim.Native.Nat.{bit_or}
use cyanea.Prelude.{
  ℕ, zero, suc, ◌+◌, ◌-◌, ◌*◌, ◌%◌, ◌^◌, Bool, true, false, not, ◌&&◌, ◌||◌, List, [], ◌∷◌, ◌++◌,
  Option, none, some, ltb, leb, ◌==◌, if◌then◌else◌, Run, ok, fault, ◌>>=◌,
}
use cyanea.Ctype.{isdigit}
use cyanea.Printf.Number.{
  fl_zero, fl_minus, fl_plus, fl_space, fl_hash, fl_signed, fl_upper, format_int, ap_format_int,
  format_str,
}

-- An argument of the call: a 64-bit word, or a string, which may be NULL.
pub data Arg : Type 0 where
  word : ℕ → Arg
  text : Option (List ℕ) → Arg

-- `ST_NORMAL`, `ST_FLAGS`, `ST_WIDTH`, `ST_PRECISION` and `ST_MODIFIERS`
pub data State : Type 0 where
  st_normal st_flags st_width st_precision st_modifiers : State

-- The variables of the loop, the arguments that are left, and what is written. `skip` stands for
-- the second `p++` at `%%`. `rank` counts from `RANK_CHAR`; a precision of -1 is none.
pub record Format : Type 0 where
  pub state : State
  pub flags : ℕ
  pub width : ℕ
  pub precision : Option ℕ
  pub rank : ℕ
  pub args : List Arg
  pub out : List ℕ
  pub skip : Bool

-- `va_arg` of a number, and of a string: what the call has to pass.
unfoldable pub next_word : List Arg → Run (ℕ × List Arg)
next_word [] = fault
next_word (word w ∷ args) = ok (w, args)
next_word (text s ∷ args) = fault

unfoldable pub next_text : List Arg → Run (Option (List ℕ) × List Arg)
next_text [] = fault
next_text (word w ∷ args) = fault
next_text (text s ∷ args) = ok (s, args)

abbrev pub emit : List ℕ → Format → Format
emit bytes f = record f { out = f.out ++ bytes }

-- "(null)"
abbrev pub null_text : List ℕ
null_text = b'(' ∷ b'n' ∷ b'u' ∷ b'l' ∷ b'l' ∷ b')' ∷ []

abbrev pub or_null : Option (List ℕ) → List ℕ
or_null none = null_text
or_null (some s) = s

unfoldable pub number : ℕ → ℕ → Format → Run (Option Format)
unfolding next_word
number base flags f = next_word f.args >>= λ (w, args).
    ap_format_int base flags f.width f.precision f.rank w >>= λ bytes.
    ok (some (emit bytes (record f { flags = flags; args = args })))

unfoldable pub pointer : ℕ → Format → Run (Option Format)
unfolding next_word
pointer flags f = next_word f.args >>= λ (w, args).
    format_int w flags 16 f.width (some 2) >>= λ bytes.
    ok (some (emit bytes (record f { flags = flags; args = args })))

unfoldable pub character : Format → Run (Option Format)
unfolding next_word
character f = next_word f.args >>= λ (w, args). ok (
    some
      (emit (format_str (w % 2 ^ 8 ∷ []) f.flags f.width f.precision) (record f { args = args })))

unfoldable pub string : Format → Run (Option Format)
unfolding next_text
string f = next_text f.args >>= λ (s, args).
    ok (some (emit (format_str (or_null s) f.flags f.width f.precision) (record f { args = args })))

-- The `switch` over the conversions; `none` is the result -1.
unfoldable pub convert : ℕ → Format → Run (Option Format)
unfolding number pointer character string
convert ch f =
    if ch == b'P'
    then pointer (bit_or (bit_or f.flags fl_upper) fl_hash) f
    else if ch == b'p'
    then pointer (bit_or f.flags fl_hash) f
    else if ch == b'd' || ch == b'i'
    then number 10 (bit_or f.flags fl_signed) f
    else if ch == b'u'
    then number 10 f.flags f
    else if ch == b'o'
    then number 8 f.flags f
    else if ch == b'X'
    then number 16 (bit_or f.flags fl_upper) f
    else if ch == b'x'
    then number 16 f.flags f
    else if ch == b'c'
    then character f
    else if ch == b's'
    then string f
    else ok none

-- `case ST_MODIFIERS`
unfoldable pub modifiers : ℕ → Format → Run (Option Format)
modifiers ch f =
    if ch == b'h' && ltb 0 f.rank
    then ok (some (record f { rank = f.rank - 1 }))
    else if ch == b'l' && ltb f.rank 4
    then ok (some (record f { rank = f.rank + 1 }))
    else convert ch (record f { state = st_normal })

-- A `*` takes the precision from the arguments: a negative one is none.
unfoldable pub star_precision : Format → Run (Option Format)
unfolding next_word
star_precision f = next_word f.args >>= λ (w, args).
    let low = w % 2 ^ 32 in
    ok (
      some (record f {
        precision = if leb (2 ^ 31) low then none else some low;
        args = args;
        state = st_modifiers;
      }))

-- `case ST_PRECISION`
unfoldable pub precision_step : ℕ → Option ℕ → Format → Run (Option Format)
unfolding star_precision
precision_step ch none f = modifiers ch (record f { state = st_modifiers })
precision_step ch (some precision) f =
    if not (isdigit ch == 0)
    then ok (some (record f { precision = some (precision * 10 + (ch - b'0')) }))
    else if ch == b'*' && precision == 0
    then star_precision f
    else modifiers ch (record f { state = st_modifiers })

-- A `*` takes the width from the arguments: a negative one sets the minus flag.
unfoldable pub star_width : ℕ → Format → Run (Option Format)
unfolding next_word
star_width next f = next_word f.args >>= λ (w, args).
    let low = w % 2 ^ 32 in
    let negative = leb (2 ^ 31) low in
    ok (
      some (record f {
        width = if negative then 2 ^ 32 - low else low;
        flags = if negative then bit_or f.flags fl_minus else f.flags;
        args = args;
        state = if next == b'.' then st_width else st_modifiers;
      }))

-- `case ST_WIDTH`
unfoldable pub width_step : ℕ → ℕ → Format → Run (Option Format)
unfolding star_width
width_step ch next f =
    if not (isdigit ch == 0)
    then ok (some (record f { width = f.width * 10 + (ch - b'0') }))
    else if ch == b'*' && f.width == 0
    then star_width next f
    else if ch == b'.'
    then ok (some (record f { precision = some 0; state = st_precision }))
    else modifiers ch (record f { state = st_modifiers })

abbrev pub flag : ℕ → Format → Run (Option Format)
flag bit f = ok (some (record f { flags = bit_or f.flags bit }))

-- `case ST_FLAGS`
unfoldable pub flags_step : ℕ → ℕ → Format → Run (Option Format)
flags_step ch next f =
    if ch == b'-'
    then flag fl_minus f
    else if ch == b'+'
    then flag fl_plus f
    else if ch == b' '
    then flag fl_space f
    else if ch == b'#'
    then flag fl_hash f
    else if ch == b'0'
    then flag fl_zero f
    else width_step ch next (record f { state = st_width })

-- `case ST_NORMAL`
unfoldable pub normal_step : ℕ → ℕ → Format → Run (Option Format)
normal_step ch next f =
    if not (ch == b'%')
    then ok (some (emit (ch ∷ []) f))
    else if next == b'%'
    then ok (some (record (emit (ch ∷ []) f) { skip = true }))
    else ok (some (record f { state = st_flags; flags = 0; rank = 2; width = 0; precision = none }))

-- One round, at the character `ch`, with `next` behind it.
unfoldable pub step : ℕ → ℕ → State → Format → Run (Option Format)
step ch next st_normal f = normal_step ch next f
step ch next st_flags f = flags_step ch next f
step ch next st_width f = width_step ch next f
step ch next st_precision f = precision_step ch f.precision f
step ch next st_modifiers f = modifiers ch f

-- `format[p]`
abbrev pub peek : List ℕ → ℕ
peek [] = 0
peek (ch ∷ format) = ch

-- The format is the list of its bytes in front of the NUL, so none of them is 0. The result -1 is
-- `false`; what was written before stays written.
unfoldable pub format_loop : List ℕ → Format → Run (Bool × List ℕ)
format_loop [] f = ok (true, f.out)
format_loop (ch ∷ format) f = elim f.skip [
  | true ↦ format_loop format (record f { skip = false })
  | false ↦ step ch (peek format) f.state f >>= λ r. elim r [
    | none ↦ ok (false, f.out)
    | some f' ↦ format_loop format f'
  ]
]

-- The variables that are not set before the first directive are 0 here.
abbrev pub format_start : List Arg → Format
format_start args = record {
  state = st_normal;
  flags = 0;
  width = 0;
  precision = none;
  rank = 2;
  args = args;
  out = [];
  skip = false;
}

unfoldable pub iob_vsnprintf : List ℕ → List Arg → Run (Bool × List ℕ)
iob_vsnprintf format args = format_loop format (format_start args)
