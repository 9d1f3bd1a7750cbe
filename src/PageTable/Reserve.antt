-- ===== src/PageTable/Reserve.antt =====
-- `init_mem_mapping` of arch/x86/ukernel/mm.c: the direct mapping is built, and the pages that its
-- tables take are reserved.
use cyanea.Prelude.{
  ℕ, ◌+◌, ◌-◌, ◌*◌, ◌^◌, ◌<◌, ◌≡◌, refl, true, length, add64, sub64, Run, ok, Returns, ◌>>=◌, Safe,
  Safe-bind, Safe-Returns, halt, ◌≢◌, arith,
}
use cyanea.Memblock.Regions.{Memblock, memblock_reserved}
use cyanea.Memblock.Isolate.{success}
use cyanea.Memblock.Update.{memblock_reserve}
use cyanea.Memblock.Update.View.{Changes, mark_attr, memblock_setclr_flag-view}
use cyanea.Memblock.Good.{Good}
use cyanea.PageTable.Tables.{
  Setup, Tables, Kernel, start_kernel_map, brk_end, init__init_top_pgt, entry_set,
}
use cyanea.PageTable.Kept.{BrkFits, brk_phys}
use cyanea.PageTable.Direct.{
  Direct, Advanced, init_range_memory_mapping, init_range_memory_mapping-Advanced,
}

-- `__pa_symbol`
unfoldable pub pa_symbol : Setup → ℕ → ℕ
pa_symbol c x = add64 (sub64 x start_kernel_map) c.phys_base

abbrev pub started : Setup → Kernel → Direct → Direct
started c k d = record d { tables = init__init_top_pgt c k d.tables }

-- But for the registers of the processor and the handler of page faults.
unfoldable pub init_mem_mapping : Setup → Kernel → Direct → Memblock → Run (Direct × Memblock)
init_mem_mapping c k d m = init_range_memory_mapping c m 0 (2 ^ 64 - 1) (started c k d) >>= λ d'.
    memblock_reserve (pa_symbol c c.brk_base) (sub64 (brk_end c d'.tables) c.brk_base) m
    >>= λ (err, m'). ok (d', m')

pub record Reserved (c : Setup) (k : Kernel) (d : Direct) (m : Memblock) (r : Direct × Memblock)
    : Type 0 where
  pub mapped : Advanced c (started c k d) r.0
  pub reserved :
      Changes
        (brk_phys c)
        (brk_phys c + r.0.tables.next_page * 2 ^ 12)
        (mark_attr true memblock_reserved)
        m
        (success, r.1)

next_page-started :
    (c : Setup) (k : Kernel) (t : Tables) → (init__init_top_pgt c k t).next_page ≡ t.next_page
unfolding init__init_top_pgt entry_set
next_page-started c k t = refl

-- The pages of the tables, as `memblock_reserve` is called with them.
reserve-Changes :
    (c : Setup) (t : Tables) (m : Memblock)
    → BrkFits c
    → t.next_page < c.brk_alloc_pages
    → Good m
    → 1 < length m.rest
    → Returns
        (Changes
          (brk_phys c)
          (brk_phys c + t.next_page * 2 ^ 12)
          (mark_attr true memblock_reserved)
          m)
        (memblock_reserve (pa_symbol c c.brk_base) (sub64 (brk_end c t) c.brk_base) m)
unfolding memblock_reserve pa_symbol brk_end brk_phys
reserve-Changes c t m fits room good spare =
    let above = fits.above in
    let virtual = fits.virtual in
    let physical = fits.physical in
    let base : add64 (sub64 c.brk_base start_kernel_map) c.phys_base ≡ brk_phys c = omega arith in
    let size : sub64 (add64 c.brk_base (t.next_page * 2 ^ 12)) c.brk_base ≡ t.next_page * 2 ^ 12 =
      omega arith in
    rw (base, size)
      (memblock_setclr_flag-view (brk_phys c) (t.next_page * 2 ^ 12) true memblock_reserved m good
        (omega arith) spare)

-- Where it returns, all of this holds, and it does nothing else but halt.
init_mem_mapping-Safe :
    (c : Setup) (k : Kernel) (d : Direct) (m : Memblock)
    → BrkFits c
    → d.tables.next_page < c.brk_alloc_pages
    → Good m
    → 1 < length m.rest
    → Safe (Reserved c k d m) (init_mem_mapping c k d m)
unfolding init_mem_mapping
init_mem_mapping-Safe c k d m fits room good spare =
    Safe-bind (Reserved c k d m) (init_range_memory_mapping c m 0 (2 ^ 64 - 1) (started c k d)) _
      (init_range_memory_mapping-Advanced c fits m 0 (2 ^ 64 - 1) (started c k d)
        (omega (arith, next_page-started c k d.tables)))
      (λ d' a.
        let r = reserve-Changes c d'.tables m fits a.entries.room good spare in
        rw r.runs
          (record { mapped = a; reserved = let (e, good', v) = r.holds in (refl, good', v) }))

-- The pages that are set aside for tables lie in the mapping of the kernel and in memory, one of them
-- at least is left, and the map of memory is good and has two entries to spare. Then, if it does not
-- halt at one of its assertions, `init_mem_mapping` returns; no entry that was present behind
-- `init__init_top_pgt` is changed, but in pages that were left for new tables, the bounds have not
-- gone down, and exactly the pages that the tables take have become reserved in the map of memory,
-- which is still good.
pub init_mem_mapping-Reserved :
    (c : Setup) (k : Kernel) (d : Direct) (m : Memblock)
    → BrkFits c
    → d.tables.next_page < c.brk_alloc_pages
    → Good m
    → 1 < length m.rest
    → init_mem_mapping c k d m ≢ halt
    → Returns (Reserved c k d m) (init_mem_mapping c k d m)
init_mem_mapping-Reserved c k d m fits room good spare no_halt =
    Safe-Returns (init_mem_mapping c k d m) (init_mem_mapping-Safe c k d m fits room good spare)
      no_halt
