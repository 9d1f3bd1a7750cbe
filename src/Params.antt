-- ===== src/Params.antt =====
-- `__param_get_option` and `param_get_option` of ukernel/params.c: an option is looked up on the
-- kernel's command line.
pub mod Buffer
pub mod Single
mod Tests
use Prim.Native.Nat.{pred}
use cyanea.Prelude.{
  ℕ, zero, suc, ◌+◌, ◌-◌, ◌^◌, ◌≤◌, Bool, true, false, ◌||◌, List, [], ◌∷◌, ◌++◌, Option, none,
  some, ltb, ◌==◌, if◌then◌else◌,
}

abbrev pub space : ℕ
space = b' '

abbrev pub equals : ℕ
equals = b'='

-- `ST_WORDSTART`, `ST_WORDCMP`, `ST_WORDSKIP` and `ST_BUFCOPY`
pub data Mode : Type 0 where
  word_start word_cmp word_skip buf_copy : Mode

-- The variables of the loop. `op` is the part of the option that is not compared yet; `n` is -1,
-- here `none`, until a value is met; `stored` holds the bytes from `buf` up to `buffer`.
pub record Scan : Type 0 where
  pub state : Mode
  pub op : List ℕ
  pub n : Option ℕ
  pub stored : List ℕ

-- A round goes on, or the function returns -2 at once.
pub data Round : Type 0 where
  go_on : Scan → Round
  boolean : Round

-- `case ST_WORDSKIP`
skip : ℕ → Scan → Scan
skip ch s = record s { state = if ch == space then word_start else word_skip }

-- `case ST_WORDCMP`
compare_word : ℕ → List ℕ → Scan → Round
unfolding skip
compare_word ch [] s =
    if ch == equals
    then go_on (record s { state = buf_copy; op = []; n = some 0; stored = [] })
    else if ch == space || ch == 0
    then boolean
    else go_on (skip ch (record s { op = [] }))
compare_word ch (c ∷ op) s =
    if ch == c
    then go_on (record s { state = word_cmp; op = op })
    else go_on (skip ch (record s { op = op }))

-- `case ST_BUFCOPY`: the byte is counted, and stored while there is room for it and the last NUL.
copy_byte : ℕ → ℕ → Option ℕ → Scan → Scan
copy_byte buf_len ch none s = s
copy_byte buf_len ch (some n) s =
    if ch == space
    then record s { state = word_start }
    else if ltb (n + 1) buf_len
    then record s { n = some (n + 1); stored = s.stored ++ ch ∷ [] }
    else record s { n = some (n + 1) }

-- The body of the loop, at the character `ch`.
dispatch : List ℕ → ℕ → ℕ → Mode → Scan → Round
dispatch option buf_len ch word_start s = if ch == space then go_on s else compare_word ch option s
dispatch option buf_len ch word_cmp s = compare_word ch s.op s
dispatch option buf_len ch word_skip s = go_on (skip ch s)
dispatch option buf_len ch buf_copy s = go_on (copy_byte buf_len ch s.n s)

unfoldable pub round : List ℕ → ℕ → ℕ → Scan → Round
unfolding dispatch compare_word copy_byte skip
round option buf_len ch s = dispatch option buf_len ch s.state s

-- What the function returns: -2, or -1 or the count `n`, with what was written to `buf`. With -2
-- that is an earlier value, without its NUL.
pub data Answer : Type 0 where
  is_boolean : List ℕ → Answer
  found : Option ℕ → List ℕ → Answer

-- `if (buf_len != 0) *buffer = '\0';`
finish : ℕ → Scan → Answer
finish buf_len s = found s.n (if buf_len == 0 then s.stored else s.stored ++ 0 ∷ [])

module _ (option : List ℕ) (buf_len : ℕ) where
  -- The loop, with at most `left` characters after this one. The list is the command line without
  -- the NUL that ends it.
  unfoldable pub scan : ℕ → List ℕ → Scan → Answer
  unfolding finish
  scan left [] s = elim (round option buf_len 0 s) [
    | boolean ↦ is_boolean s.stored
    | go_on s' ↦ finish buf_len s'
  ]
  scan left (ch ∷ cs) s = elim (round option buf_len ch s) [
    | boolean ↦ is_boolean s.stored
    | go_on s' ↦ elim (ch == 0) [
      | true ↦ finish buf_len s'
      | false ↦ elim (left == 0) [ true ↦ finish buf_len s' | false ↦ scan (left - 1) cs s' ]
    ]
  ]

abbrev pub scan_start : Scan
scan_start = record { state = word_start; op = []; n = none; stored = [] }

-- A missing command line is `none`.
unfoldable pub get_option : Option (List ℕ) → ℕ → List ℕ → ℕ → Answer
get_option none cmdline_len option buf_len = found none []
get_option (some cmdline) cmdline_len option buf_len =
    scan option buf_len (cmdline_len - 1) cmdline scan_start

abbrev pub command_line_size : ℕ
command_line_size = 2048

-- `param_get_option`: 0 for a boolean, `none` for `-EINVAL`, else the count; and what is in `buf`.
unfoldable pub param_get_option : Option (List ℕ) → List ℕ → ℕ → Option ℕ × List ℕ
param_get_option cmdline option buf_len =
    elim (get_option cmdline command_line_size option buf_len) [
      | is_boolean buf ↦ (some 0, buf)
      | found n buf ↦ (n, buf)
    ]
