-- ===== src/Console/Tests.antt =====
-- Runs of drivers/console.c.
use cyanea.Prelude.{
  ℕ, ◌%◌, ◌^◌, ◌≡◌, refl, true, false, List, [], ◌∷◌, ◌++◌, none, some, replicate, pos, Returns,
  fault, arith, if◌then◌else◌,
}
use cyanea.Console.{
  PreferredConsole, enoent, Active, is_free, is_same, fill_entry, add_preferred, console_setup,
  register_console,
}
use cyanea.Strings.{strcmp, strncpy}
use cyanea.Console.Register.{plain_console, is_some, register_console-lookup}
use cyanea.Console.Preferred.{lookup, Packed, Fits, Added, add_preferred-Added}
use cyanea.Console.Setup.{Asks, Digit, with_options, port, console_setup-add_preferred}
use cyanea.Ctype.{isdigit, isx}

abbrev uart_name : List ℕ
uart_name = 117 ∷ 97 ∷ 114 ∷ 116 ∷ []

abbrev one : List ℕ
one = 49 ∷ []

abbrev fast : List ℕ
fast = 102 ∷ 97 ∷ 115 ∷ 116 ∷ []

abbrev unused : PreferredConsole
unused = record {
  name = replicate 8 0;
  index = 0;
  user_specified = false;
  options = replicate 64 0;
}

-- uart, which was asked for by a driver, and entries that are free.
abbrev uart : PreferredConsole
uart = record {
  name = uart_name ++ replicate 4 0;
  index = 1;
  user_specified = false;
  options = replicate 64 0;
}

abbrev pcs : List PreferredConsole
pcs = uart ∷ unused ∷ unused ∷ []

pcs-Packed : Packed pcs
unfolding Packed is_free
pcs-Packed = (((tt, λ e. tt), λ e. (refl, tt)), λ e. (refl, (refl, tt)))

uart-Fits : Fits uart_name none
uart-Fits = record {
  bytes = (omega arith, (omega arith, (omega arith, (omega arith, tt))));
  named = omega arith;
  short = omega arith;
  option_bytes = tt;
}

add_preferred-Added_example :
    Returns (Added uart_name 1 none true pcs) (add_preferred uart_name 1 none true pcs)
add_preferred-Added_example = add_preferred-Added uart_name 1 none true pcs uart-Fits pcs-Packed

uart_1-Asks : Asks uart_name one
unfolding Digit isdigit isx
uart_1-Asks = record {
  name_is = (
    (omega arith, refl),
    ((omega arith, refl), ((omega arith, refl), ((omega arith, refl), tt))),
  );
  plain = (
    (omega arith, omega arith),
    (
      (omega arith, omega arith),
      ((omega arith, omega arith), ((omega arith, omega arith), ((omega arith, omega arith), tt))),
    ),
  );
  digit = omega arith;
  short = omega arith;
}

console_setup-add_preferred_example :
    console_setup (replicate 32 0) ((uart_name ++ one) ++ with_options (some fast)) pcs
    ≡ add_preferred uart_name (port one % 2 ^ 32) (some fast) true pcs
console_setup-add_preferred_example =
    console_setup-add_preferred (replicate 32 0) uart_name one uart_1-Asks pcs (some fast)

abbrev busy : Active
busy = record { active_console = some (plain_console fast 0 true); exited = [] }

register_console-lookup_example : register_console (plain_console uart_name 1 false) pcs busy ≡ (
    if is_some (lookup uart_name 1 pcs)
    then (
      pos 0,
      record {
        active_console = some (plain_console uart_name 1 false);
        exited = plain_console fast 0 true ∷ [];
      },
    )
    else (enoent, busy))
register_console-lookup_example = register_console-lookup uart_name 1 false pcs busy

-- A name of 8 characters: `strncpy` does not stop.
long_name : add_preferred (replicate 8 97) 0 none true (unused ∷ []) ≡ fault
unfolding add_preferred fill_entry strncpy is_free is_same strcmp
long_name = refl
