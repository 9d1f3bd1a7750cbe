-- ===== src/E820/Tests.antt =====
-- Runs of arch/x86/ukernel/e820.c, and its theorems at inputs that meet their hypotheses.
use cyanea.Prelude.{ℕ, ◌≡◌, refl, [], ◌∷◌, arith, ok, Returns}
use cyanea.E820.{Entry, Table, update_table, update_loop, memblock_setup}
use cyanea.E820.Compact.{kind_at, Parted, update_table-kind_at}
use cyanea.Memblock.Regions.{no_node, insert_region, merge_regions}
use cyanea.Memblock.Regions.Insert.{memory, region}
use cyanea.Memblock.Add.{memblock_add}

abbrev entry : ℕ → ℕ → ℕ → Entry
entry start size kind = record { start = start; size = size; kind = kind }

-- Usable memory in two parts, something reserved, and more usable memory.
abbrev table : Table
table =
    entry 0x1000 0x1000 1
    ∷ entry 0x2000 0x2000 1
    ∷ entry 0x4000 0x1000 2
    ∷ entry 0x5000 0x1000 1
    ∷ []

update_runs :
    update_table table
    ≡ ok (entry 0x1000 0x3000 1 ∷ entry 0x4000 0x1000 2 ∷ entry 0x5000 0x1000 1 ∷ [])
unfolding update_table update_loop
update_runs = refl

setup_runs :
    memblock_setup table
      (memory [] (region 0 0 0 0 ∷ region 0 0 0 0 ∷ region 0 0 0 0 ∷ region 0 0 0 0 ∷ []) 0)
    ≡ ok (
        memory
          (region 0x1000 0x3000 no_node 0 ∷ region 0x5000 0x1000 no_node 0 ∷ [])
          (region 0 0 0 0 ∷ region 0 0 0 0 ∷ [])
          0x4000)
unfolding memblock_setup memblock_add insert_region merge_regions
setup_runs = refl

update_table-kind_at_example :
    Returns
      (λ table'. ((a : ℕ) → kind_at table' a ≡ kind_at table a) × Parted table')
      (update_table table)
update_table-kind_at_example = update_table-kind_at table (omega arith)
