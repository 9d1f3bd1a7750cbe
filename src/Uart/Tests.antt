-- ===== src/Uart/Tests.antt =====
-- Runs of drivers/uart_core.c.
use cyanea.Prelude.{ℕ, zero, suc, ◌≡◌, refl, sym, ap, List, [], ◌∷◌, none, some, pos, arith}
use cyanea.Uart.{
  UartPort, eexist, uart_match_port, find_match_port, first_unknown, register_uart_port,
}
use cyanea.Uart.Distinct.{At, Good, Outcome, register_uart_port-Good}

abbrev unused : UartPort
unused = record {
  up_name = [];
  type = 0;
  io_type = 0;
  io = 0;
  index = 0;
  uart_clock = 0;
  poll_putchar = 0;
}

abbrev serial : UartPort
serial = record {
  up_name = [];
  type = 1;
  io_type = 0;
  io = 0x3F8;
  index = 7;
  uart_clock = 1843200;
  poll_putchar = 0x1000;
}

abbrev empty_table : List UartPort
empty_table = unused ∷ unused ∷ []

ap_type : (p : UartPort) → some unused ≡ some p → p.type ≡ 0
ap_type p e = sym (ap (λ o. elim o [ none ↦ 0 | some q ↦ q.type ]) e)

none_At : (i : ℕ) (p : UartPort) → At empty_table i p → ⊥
none_At zero p a = a.known (ap_type p a.found)
none_At (suc zero) p a = a.known (ap_type p a.found)
none_At (suc (suc i)) p a = ground (arith, a.found)

empty_table-Good : Good empty_table
empty_table-Good = record {
  indexed = λ i p a. absurd (none_At i p a);
  distinct = λ i j p q a b m. absurd (none_At i p a);
}

register_uart_port-Good_example :
    Good (register_uart_port serial empty_table).1
    × Outcome serial empty_table (register_uart_port serial empty_table)
register_uart_port-Good_example = register_uart_port-Good serial empty_table empty_table-Good

register_runs :
    register_uart_port serial empty_table ≡ (pos 0, record serial { index = 0 } ∷ unused ∷ [])
unfolding register_uart_port find_match_port uart_match_port first_unknown
register_runs = refl

-- The port 0 is taken for one that the table holds: an entry that is not in use matches it.
port_zero : register_uart_port (record serial { io = 0 }) empty_table ≡ (eexist, empty_table)
unfolding register_uart_port find_match_port uart_match_port
port_zero = refl
