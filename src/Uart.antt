-- ===== src/Uart.antt =====
-- drivers/uart_core.c: the table of serial ports, and the option that names one.
pub mod Distinct
mod Tests
use cyanea.Prelude.{
  ℕ, zero, suc, ◌+◌, ◌%◌, ◌^◌, Bool, true, false, not, ◌&&◌, List, [], ◌∷◌, Option, none, some,
  ◌==◌, if◌then◌else◌, drop, set, ℤ, pos, negsuc, Run, ok, ◌>>=◌,
}
use cyanea.Console.{enospc, einval, is_equal}
use cyanea.Strings.{strncmp, strchr}
use cyanea.Strtox.{strtoull}

-- `struct uart_port`. The union is a word, of which a port number has 16 bits; a function is its address.
pub record UartPort : Type 0 where
  pub up_name : List ℕ
  pub type : ℕ
  pub io_type : ℕ
  pub io : ℕ
  pub index : ℕ
  pub uart_clock : ℕ
  pub poll_putchar : ℕ

-- `PORT_UNKNOWN`, `UART_IO_PORT`, `UART_IO_MEM` and `-EEXIST`
abbrev pub port_unknown : ℕ
port_unknown = 0

abbrev pub uart_io_port : ℕ
uart_io_port = 0

abbrev pub uart_io_mem : ℕ
uart_io_mem = 1

abbrev pub eexist : ℤ
eexist = negsuc 3

unfoldable pub uart_match_port : UartPort → UartPort → Bool
uart_match_port up1 up2 =
    if not (up1.io_type == up2.io_type)
    then false
    else if up1.io_type == uart_io_port
    then up1.io % 2 ^ 16 == up2.io % 2 ^ 16
    else if up1.io_type == uart_io_mem
    then up1.io == up2.io
    else false

-- `__find_match_port`: whether there is one.
unfoldable pub find_match_port : UartPort → List UartPort → Bool
find_match_port up [] = false
find_match_port up (p ∷ ports) =
    let rest = find_match_port up ports in if uart_match_port p up then true else rest

-- The loop to the first entry that is not in use.
unfoldable pub first_unknown : List UartPort → ℕ → Option ℕ
first_unknown [] i = none
first_unknown (p ∷ ports) i =
    let rest = first_unknown ports (i + 1) in if p.type == port_unknown then some i else rest

unfoldable pub register_uart_port : UartPort → List UartPort → ℤ × List UartPort
register_uart_port up ports =
    if up.uart_clock == 0
    then (einval, ports)
    else if find_match_port up ports
    then (eexist, ports)
    else elim (first_unknown ports 0) [
      | none ↦ (enospc, ports)
      | some i ↦ (pos 0, set ports i (record up { index = i }))
    ]

-- `uart_poll_put_char`: the characters that the function of the port is given.
unfoldable pub poll_put_char : ℕ → List ℕ
poll_put_char ch = if ch == 10 then 13 ∷ ch ∷ [] else ch ∷ []

-- What `uart_io_parse_option` finds.
pub record IoOption : Type 0 where
  pub io_type : ℕ
  pub addr : ℕ
  pub options : Option (List ℕ)

-- The address, and what stands behind the comma.
unfoldable pub parse_address : List ℕ → ℕ → List ℕ → Run (Option IoOption)
parse_address scratch io_type p = strtoull scratch p 0 >>= λ addr. elim addr [
  | none ↦ ok none
  | some addr ↦ ok (
      some (record {
        io_type = io_type;
        addr = addr;
        options = elim (strchr p 44) [ none ↦ none | some i ↦ some (drop (suc i) p) ];
      }))
]

-- `none` is `-EINVAL`.
unfoldable pub uart_io_parse_option : List ℕ → List ℕ → Run (Option IoOption)
uart_io_parse_option scratch p =
    if is_equal (strncmp p (105 ∷ 111 ∷ 44 ∷ []) 3)
    then parse_address scratch uart_io_port (drop 3 p)
    else if is_equal (strncmp p (48 ∷ 120 ∷ []) 2)
    then parse_address scratch uart_io_mem p
    else ok none
