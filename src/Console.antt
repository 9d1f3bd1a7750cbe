-- ===== src/Console.antt =====
-- drivers/console.c: the consoles that are asked for, and the one that is in use.
pub mod Names
pub mod Preferred
pub mod Setup
pub mod Register
mod Tests
use cyanea.Prelude.{
  ℕ, zero, suc, ◌+◌, ◌-◌, ◌%◌, ◌^◌, Bool, true, false, not, ◌&&◌, ◌||◌, List, [], ◌∷◌, ◌++◌, Option,
  none, some, ltb, ◌==◌, if◌then◌else◌, take, drop, replicate, ℤ, pos, negsuc, Run, ok, fault,
  ◌>>=◌,
}
use cyanea.Acpi.{c_string}
use cyanea.Ctype.{isdigit}
use cyanea.Strings.{strcmp, strchr, strncpy}
use cyanea.Strtox.{strtoull}

-- `struct preferred_console`: the arrays hold all their bytes.
pub record PreferredConsole : Type 0 where
  pub name : List ℕ
  pub index : ℕ
  pub user_specified : Bool
  pub options : List ℕ

-- `-ENOSPC`, `-ENOENT` and `-EINVAL`
abbrev pub enospc : ℤ
enospc = negsuc 2

abbrev pub enoent : ℤ
enoent = negsuc 4

abbrev pub einval : ℤ
einval = negsuc 0

abbrev pub is_equal : ℤ → Bool
is_equal (pos n) = n == 0
is_equal (negsuc n) = false

-- An int, from the word of its two's complement.
abbrev pub to_int : ℕ → ℤ
to_int w = if ltb w (2 ^ 31) then pos w else negsuc (2 ^ 32 - 1 - w)

abbrev pub same_flag : Bool → Bool → Bool
same_flag true b = b
same_flag false b = not b

-- `!pc->name[0]`
unfoldable pub is_free : List ℕ → Bool
is_free [] = true
is_free (c ∷ name) = c == 0

-- `!strcmp(pc->name, name) && (pc->index == index)`
unfoldable pub is_same : List ℕ → ℕ → PreferredConsole → Bool
is_same name index pc = is_equal (strcmp pc.name name) && pc.index == index

unfoldable pub copy_options : Option (List ℕ) → List ℕ → Run (List ℕ)
copy_options none old = ok old
copy_options (some options) old = strncpy options 64

-- The store to the entry behind the loop.
unfoldable pub fill_entry :
    List ℕ → ℕ → Option (List ℕ) → Bool → PreferredConsole → Run PreferredConsole
fill_entry name index options user pc = strncpy name 8 >>= λ name'.
    copy_options options pc.options >>= λ options'.
    ok (record { name = name'; index = index; user_specified = user; options = options' })

-- `__add_preferred_console`, on the entries from one on.
unfoldable pub add_preferred :
    List ℕ → ℕ → Option (List ℕ) → Bool → List PreferredConsole → Run (ℤ × List PreferredConsole)
add_preferred name index options user [] = ok (enospc, [])
add_preferred name index options user (pc ∷ pcs) =
    let rest = add_preferred name index options user pcs in
    if is_free pc.name
    then (fill_entry name index options user pc >>= λ pc'. ok (pos 0, pc' ∷ pcs))
    else if is_same name index pc
    then ok (pos 0, record pc { user_specified = user || pc.user_specified } ∷ pcs)
    else rest >>= λ (err, pcs'). ok (err, pc ∷ pcs')

-- Where the first digit is, or else the NUL.
unfoldable pub first_digit : List ℕ → ℕ
first_digit [] = 0
first_digit (c ∷ s) =
    let rest = first_digit s in if c == 0 then 0 else if isdigit c == 0 then suc rest else 0

-- `options = strchr(arg, ',')`, and the comma becomes a NUL.
unfoldable pub split_options : List ℕ → List ℕ × Option (List ℕ)
split_options arg = elim (strchr arg 44) [
  | none ↦ (arg, none)
  | some i ↦ (take i arg, some (drop (suc i) arg))
]

-- `console_setup`: `arg` is a string, and the buffer gets 15 bytes and a NUL.
unfoldable pub console_setup :
    List ℕ → List ℕ → List PreferredConsole → Run (ℤ × List PreferredConsole)
console_setup scratch arg pcs =
    let parts = split_options arg in
    strncpy parts.0 15 >>= λ buf.
    let at = first_digit buf in
    strtoull scratch (c_string (drop at buf)) 0 >>= λ index. elim index [
      | none ↦ fault
      | some index ↦ add_preferred (take at buf) (index % 2 ^ 32) parts.1 true pcs
    ]

-- `struct console`, with what the driver's functions return, where it has them; `true` stands for
-- a result of `match` that is not 0. Of `exit` only counts whether the driver has it.
pub record Console : Type 0 where
  pub name : List ℕ
  pub index : ℤ
  pub setup : Option (List ℕ → ℤ)
  pub matches : Option (List ℕ → List ℕ → Bool)
  pub has_exit : Bool

-- `!con->match || con->match(con, pc->name, pc->options)`: whether name and port are compared.
unfoldable pub by_name : Console → PreferredConsole → Bool
by_name con pc = elim con.matches [ none ↦ true | some matches ↦ matches pc.name pc.options ]

-- `con->index >= 0 && con->index != pc->index`, where both are of type int.
unfoldable pub other_port : Console → PreferredConsole → Bool
other_port con pc = elim con.index [ pos index ↦ not (index == pc.index) | negsuc n ↦ false ]

unfoldable pub with_port : Console → PreferredConsole → Console
with_port con pc = elim con.index [
  | pos index ↦ con
  | negsuc n ↦ record con { index = to_int pc.index }
]

unfoldable pub run_setup : Console → PreferredConsole → ℤ
run_setup con pc = elim con.setup [ none ↦ pos 0 | some setup ↦ setup pc.options ]

unfoldable pub try_enable : Console → Bool → List PreferredConsole → ℤ × Console
try_enable con user [] = (enoent, con)
try_enable con user (pc ∷ pcs) =
    let rest = try_enable con user pcs in
    if is_free pc.name
    then (enoent, con)
    else if not (same_flag pc.user_specified user)
    then rest
    else if not (by_name con pc)
    then (pos 0, con)
    else if not (is_equal (strcmp pc.name con.name)) || other_port con pc
    then rest
    else (run_setup con pc, with_port con pc)

-- The console in use, and those whose `exit` was called, the last one first.
pub record Active : Type 0 where
  pub active_console : Option Console
  pub exited : List Console

unfoldable pub leave : Active → List Console
leave a = elim a.active_console [
  | none ↦ a.exited
  | some con ↦ if con.has_exit then con ∷ a.exited else a.exited
]

unfoldable pub register_console : Console → List PreferredConsole → Active → ℤ × Active
register_console con pcs a =
    let first = try_enable con true pcs in
    let second = try_enable first.1 false pcs in
    let chosen : ℤ × Console = if is_equal first.0 then first else second in
    if is_equal chosen.0
    then (pos 0, record { active_console = some chosen.1; exited = leave a })
    else (enoent, a)

-- `console_write`: what is written, and by which console.
unfoldable pub console_write : List ℕ → Active → ℤ × Option (Console × List ℕ)
console_write s a = elim a.active_console [
  | none ↦ (einval, none)
  | some con ↦ (pos 0, some (con, s))
]
