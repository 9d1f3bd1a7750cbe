-- ===== src/E820.antt =====
-- arch/x86/ukernel/e820.c: the table of the firmware's memory ranges.
pub mod Compact
mod Tests
use cyanea.Prelude.{
  ℕ, zero, suc, ◌+◌, ◌-◌, ◌^◌, Bool, true, false, ◌&&◌, List, [], ◌∷◌, ◌++◌, none, some, ◌==◌,
  if◌then◌else◌, length, get_elem?, set, take, add64, Run, ok, fault, ◌>>=◌,
}
use cyanea.Memblock.Regions.{Memblock, no_node}
use cyanea.Memblock.Add.{memblock_add}

-- `struct e820_entry`; `type` is the number of an `enum e820_type`.
pub record Entry : Type 0 where
  pub start : ℕ
  pub size : ℕ
  pub kind : ℕ

abbrev pub type_ram : ℕ
type_ram = 1

abbrev pub max_entries : ℕ
max_entries = 128

-- `struct e820_table`: the entries below `nr_entries`. What stands behind them is never read.
abbrev pub Table : Type 0
Table = List Entry

-- `__e820__range_add`: a full table ignores the range.
unfoldable pub range_add : Table → ℕ → ℕ → ℕ → Table
range_add table start size kind =
    if length table == max_entries
    then table
    else table ++ record { start = start; size = size; kind = kind } ∷ []

-- The entries are of one type, and the second begins where the first ends.
abbrev pub continues : Entry → Entry → Bool
continues e x = e.kind == x.kind && add64 e.start e.size == x.start

abbrev pub widened : Entry → Entry → Entry
widened e x = record e { size = add64 e.size x.size }

-- The loop of `__e820__update_table`, for the `k` entries from `cur_idx` on.
unfoldable pub update_loop : ℕ → ℕ → ℕ → List Entry → Run Table
update_loop zero cur_idx idx entries = ok (take (idx + 1) entries)
update_loop (suc k) cur_idx idx entries = elim (get_elem? entries idx) [
  | none ↦ fault
  | some e ↦ elim (get_elem? entries cur_idx) [
    | none ↦ fault
    | some x ↦ elim (continues e x) [
      | true ↦ update_loop k (cur_idx + 1) idx (set entries idx (widened e x))
      | false ↦ update_loop k (cur_idx + 1) (idx + 1) (set entries (idx + 1) x)
    ]
  ]
]

unfoldable pub update_table : Table → Run Table
update_table table =
    if length table == 0 then ok table else update_loop (length table - 1) 1 0 table

-- `e820__memblock_setup`: usable memory is added, on no node.
unfoldable pub memblock_setup : Table → Memblock → Run Memblock
memblock_setup [] m = ok m
memblock_setup (entry ∷ table) m =
    (if entry.kind == type_ram then memblock_add entry.start entry.size no_node 0 m else ok m)
    >>= memblock_setup table
