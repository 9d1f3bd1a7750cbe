-- ===== src/PageTable/Tests.antt =====
-- Runs of arch/x86/ukernel/mm.c.
use cyanea.Prelude.{
  ℕ, ◌*◌, ◌^◌, ◌≡◌, refl, List, [], ◌∷◌, Run, ok, halt, ok≢halt, ◌>>=◌, Returns, arith, ◌≢◌, sym,
  ap, ◌∙◌,
}
use cyanea.Align.{align_kernel, pfn_up, pfn_down}
use cyanea.Align.Rounding.{round_up, round_down}
use cyanea.Memblock.Regions.{Region, Memblock}
use cyanea.PageTable.{page_size_4k, page_size_2m, page_size_1g, stage, range_pieces}
use cyanea.PageTable.Split.{Cover, range_pieces-Cover}
use cyanea.PageTable.Tables.{
  Setup, Tables, Kernel, va, pa, pfn_mask, pte_present, large_flag, check_pgprot, entry_at,
  entry_set, brk_end, alloc_page, is_2m, is_1g, index, next_page_of, pt_loop, physical_pt_init,
  pmd_entry, pmd_loop, physical_pmd_init, pud_entry, pud_loop, physical_pud_init, pgd_entry,
  pgd_loop, physical_mapping_init, init__init_top_pgt,
}
use cyanea.PageTable.Kept.{brk_phys, BrkFits}
use cyanea.PageTable.Leaf.{Filled, physical_pt_init-Filled}
use cyanea.PageTable.Direct.{
  Direct, init_range_memory_mapping, range_loop, map_range, map_pieces, add_range_mapped,
}
use cyanea.Memblock.Alloc.{next_mem_pfn_range}
use cyanea.Memblock.Regions.{insert_region, merge_regions}
use cyanea.Memblock.Isolate.{isolate_range, isolate_loop, split_region}
use cyanea.Memblock.Update.{memblock_reserve, memblock_setclr_flag, update_range, update_loop}
use cyanea.PageTable.Reserve.{pa_symbol, Reserved, init_mem_mapping, init_mem_mapping-Reserved}
use cyanea.Memblock.Good.{Good}

-- From 12 KiB to 3 GiB and 2 MiB and 4 KiB.
pieces_run :
    range_pieces 3 787000
    ≡ record { start_pfn = 3; end_pfn = 512; ps = page_size_4k }
      ∷ record { start_pfn = 512; end_pfn = 262144; ps = page_size_2m }
      ∷ record { start_pfn = 262144; end_pfn = 786432; ps = page_size_1g }
      ∷ record { start_pfn = 786432; end_pfn = 786944; ps = page_size_2m }
      ∷ record { start_pfn = 786944; end_pfn = 787000; ps = page_size_4k }
      ∷ []
unfolding range_pieces stage round_up round_down align_kernel
pieces_run = refl

range_pieces-Cover_example : Cover 3 787000 (range_pieces 3 787000)
range_pieces-Cover_example = range_pieces-Cover 3 787000 (omega arith) (omega arith)

-- A kernel that is loaded at 8 MiB, with its tables at 16 MiB.
abbrev setup : Setup
setup = record {
  brk_base = 0xFFFFFFFF81000000;
  brk_alloc_pages = 64;
  init_top_pgt = 0xFFFFFFFF80800000;
  phys_base = 0;
  supported_pte_mask = 0xFFFFFFFFFFFFFFFF;
}

abbrev tables : Tables
tables = record { pages = λ page i. 0; next_page = 0 }

setup-BrkFits : BrkFits setup
unfolding brk_phys
setup-BrkFits = record {
  above = omega arith;
  virtual = omega arith;
  physical = omega arith;
  few = omega arith;
}

-- The entries on the way to an address of 3 pages, of which the second is the last one of its table.
abbrev path : Run Tables → Run (List ℕ)
path r = r >>= λ t. ok (
    t.pages 0x800000 511
    ∷ t.pages 0x1000000 0
    ∷ t.pages 0x1001000 0
    ∷ t.pages 0x1002000 511
    ∷ t.pages 0x1001000 1
    ∷ t.pages 0x1003000 0
    ∷ t.next_page
    ∷ [])

mapping_run :
    path (physical_mapping_init setup 0x1FE000 0x201000 page_size_4k tables)
    ≡ ok (
        0x1000063 ∷ 0x1001063 ∷ 0x1002063 ∷ 0x80000000001FF163 ∷ 0x1003063 ∷ 0x8000000000200163 ∷ 4
        ∷ [])
unfolding physical_mapping_init pgd_loop pgd_entry physical_pud_init pud_loop pud_entry
    physical_pmd_init pmd_loop pmd_entry physical_pt_init pt_loop next_page_of index alloc_page
    brk_end entry_set entry_at check_pgprot large_flag pte_present pfn_mask pa va is_2m is_1g
mapping_run = refl

physical_pt_init-Filled_example :
    Returns
      (Filled setup 0xFFFFFFFF81002000 512 3 600 tables)
      (physical_pt_init setup 0xFFFFFFFF81002000 (515 * 2 ^ 12) (600 * 2 ^ 12) tables)
unfolding entry_at
physical_pt_init-Filled_example =
    physical_pt_init-Filled setup 0xFFFFFFFF81002000 515 600 tables (omega arith) (omega arith)
      (λ j lo hi below e. omega (arith, e))

abbrev spare : Region
spare = record { base = 0; size = 0; nid = 0; flags = 0 }

-- 32 MiB of memory.
abbrev memory : Memblock
memory = record {
  live = record { base = 0; size = 0x2000000; nid = 0; flags = 0 } ∷ [];
  rest = spare ∷ spare ∷ [];
  size = 0x2000000;
}

abbrev unmapped : Direct
unmapped = record { tables = tables; max_low_pfn_mapped = 0; max_pfn_mapped = 0 }

memory-Good : Good memory
memory-Good = omega arith

abbrev kernel : Kernel
kernel = record {
  level3_kernel_pgt = 0xFFFFFFFF80801000;
  level2_kernel_pgt = 0xFFFFFFFF80802000;
  level2_fixmap_pgt = 0xFFFFFFFF80803000;
}

-- The 32 MiB are mapped by pages of 2 MiB, and the one page for their table is reserved: the run of the
-- theorem does not halt.
abbrev summary : Run (Direct × Memblock) → Run (List ℕ × List Region)
summary r = r >>= λ (d, m). ok (
  d.tables.pages 0x801000 0
      ∷ d.tables.pages 0x1000000 0
      ∷ d.tables.pages 0x1000000 15
      ∷ d.tables.next_page
      ∷ d.max_pfn_mapped
      ∷ [],
  m.live,
)

init_run :
    summary (init_mem_mapping setup kernel unmapped memory)
    ≡ ok (
      0x1000063 ∷ 0x80000000000001E3 ∷ 0x8000000001E001E3 ∷ 1 ∷ 8192 ∷ [],
      record { base = 0; size = 0x1000000; nid = 0; flags = 0 }
          ∷ record { base = 0x1000000; size = 0x1000; nid = 0; flags = 0xFFFF }
          ∷ record { base = 0x1001000; size = 0xFFF000; nid = 0; flags = 0 }
          ∷ [],
    )
unfolding init_mem_mapping init_range_memory_mapping range_loop map_range map_pieces
    add_range_mapped next_mem_pfn_range range_pieces stage round_up round_down align_kernel
    pa_symbol pfn_up pfn_down memblock_reserve memblock_setclr_flag update_range isolate_range
    isolate_loop split_region insert_region update_loop merge_regions init__init_top_pgt
    physical_mapping_init pgd_loop pgd_entry physical_pud_init pud_loop pud_entry physical_pmd_init
    pmd_loop pmd_entry physical_pt_init pt_loop next_page_of index alloc_page brk_end entry_set
    entry_at check_pgprot large_flag pte_present pfn_mask pa va is_2m is_1g
init_run = refl

init_returns : init_mem_mapping setup kernel unmapped memory ≢ halt
init_returns e = absurd (ok≢halt (sym init_run ∙ ap summary e))

init_mem_mapping-Reserved_example :
    Returns (Reserved setup kernel unmapped memory) (init_mem_mapping setup kernel unmapped memory)
init_mem_mapping-Reserved_example =
    init_mem_mapping-Reserved setup kernel unmapped memory setup-BrkFits (omega arith) memory-Good
      (omega arith) init_returns
