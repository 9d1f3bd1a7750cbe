-- ===== src/Memblock/Alloc.antt =====
-- `find_in_range_node`, `memblock_alloc` and `__next_mem_pfn_range` of ukernel/memblock.c.
pub mod Found
pub mod Ranges
use cyanea.Prelude.{
  ℕ, zero, suc, ◌+◌, ◌-◌, min, max, Bool, true, false, not, ◌&&◌, ◌||◌, List, [], ◌∷◌, Option, none,
  some, ltb, leb, ◌==◌, if◌then◌else◌, drop, add64, sub64, Run, ok, ◌>>=◌,
}
use cyanea.Align.{align_kernel, page_size, pfn_up, pfn_down}
use cyanea.Memblock.Regions.{
  Region, Memblock, region_end, memblock_none, memblock_reserved, no_node,
}
use cyanea.Memblock.Isolate.{Status, success, enospc}
use cyanea.Memblock.Update.{memblock_setclr_flag}

-- `clamp(a, low, high)`
abbrev pub clamp : ℕ → ℕ → ℕ → ℕ
clamp a low high = min (max a low) high

-- What is asked for.
pub record Request : Type 0 where
  pub size : ℕ
  pub align : ℕ
  pub start : ℕ
  pub end : ℕ
  pub flags : ℕ

-- The loop of `find_in_range_node`.
unfoldable pub find_loop : Request → ℕ → List Region → ℕ
find_loop q nid [] = 0
find_loop q nid (region ∷ rs) =
    let later = find_loop q nid rs in
    let r_base = clamp region.base q.start q.end in
    let r_end = clamp (region_end region) q.start q.end in
    let base = align_kernel r_base q.align in
    if region.flags == q.flags
    then (if not (nid == no_node) && not (nid == region.nid)
        then later
        else if ltb base r_end && leb q.size (sub64 r_end base)
        then base
        else later)
    else later

-- Page 0 is never given out.
unfoldable pub find_in_range_node : ℕ → ℕ → ℕ → ℕ → ℕ → ℕ → Memblock → ℕ
find_in_range_node size align start end nid flags m =
    let from = max start page_size in
    find_loop
      (record { size = size; align = align; start = from; end = max from end; flags = flags }) nid
      m.live

-- One round behind the label `again`: 0, or the address that is now reserved.
unfoldable pub alloc_round : ℕ → ℕ → ℕ → ℕ → ℕ → Memblock → Run (ℕ × Memblock)
alloc_round size align start end nid m =
    let paddr = find_in_range_node size align start end nid memblock_none m in
    if paddr == 0
    then ok (0, m)
    else memblock_setclr_flag paddr size true memblock_reserved m >>= λ (err, m'). elim err [
      | success ↦ ok (paddr, m')
      | enospc ↦ ok (0, m')
    ]

-- The second round is for any node, and is the last: `nid` is -1 then.
unfoldable pub memblock_alloc : ℕ → ℕ → ℕ → ℕ → ℕ → Bool → Memblock → Run (ℕ × Memblock)
memblock_alloc size align start end nid exact_nid m =
    alloc_round size align start end nid m >>= λ (paddr, m').
    if not (paddr == 0)
    then ok (paddr, m')
    else if not (nid == no_node) && not exact_nid
    then alloc_round size align start end no_node m'
    else ok (0, m')

-- `__next_mem_pfn_range`: the results for one call, where the loop looks at the regions behind `i`.
pub record PfnRange : Type 0 where
  pub index : ℕ
  pub start_pfn : ℕ
  pub end_pfn : ℕ
  pub out_nid : ℕ

next_loop : ℕ → ℕ → List Region → Option PfnRange
next_loop nid i [] = none
next_loop nid i (reg ∷ rs) =
    let later = next_loop nid (i + 1) rs in
    let up = pfn_up reg.base in
    let down = pfn_down (region_end reg) in
    if leb down up
    then later
    else if nid == no_node || nid == reg.nid
    then some (record { index = i; start_pfn = up; end_pfn = down; out_nid = reg.nid })
    else later

-- `i` is the index after `*i`; `none` is the end, where `*i` becomes -1.
unfoldable pub next_mem_pfn_range : ℕ → ℕ → Memblock → Option PfnRange
unfolding next_loop
next_mem_pfn_range i nid m = next_loop nid i (drop i m.live)
