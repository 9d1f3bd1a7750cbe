-- ===== src/Memblock/Add.antt =====
-- `add_range` and `memblock_add` of ukernel/memblock.c: a range is added where no region lies yet.
pub mod Fill
pub mod Whole
pub mod View
use Prim.Native.Nat.{bit_and}
use cyanea.Prelude.{
  ℕ, zero, suc, ◌+◌, ◌-◌, ◌*◌, ◌^◌, min, true, false, Option, none, some, [], ◌∷◌, ltb, leb, ◌==◌,
  if◌then◌else◌, get_elem?, add64, sub64, Run, ok, fault, timeout, ◌>>=◌,
}
use cyanea.Memblock.Regions.{
  Region, Memblock, count, region_end, memblock_reserved, insert_region, merge_regions,
}

-- The variables of the loop. `start_region` is -1, here `none`, until a region is inserted, and
-- `end_region` has a meaning from then on.
pub record Pass : Type 0 where
  pub i : ℕ
  pub base : ℕ
  pub start_region : Option ℕ
  pub end_region : ℕ
  pub memory : Memblock

-- `if (start_region == -1) start_region = i;`
abbrev pub first_of : Option ℕ → ℕ → Option ℕ
first_of none i = some i
first_of (some j) i = some j

module _ (end nid flags : ℕ) where
  -- A region for the addresses from `base` up to `upto` is inserted at `i`.
  pub insert_gap : ℕ → Pass → Run Pass
  insert_gap upto s = insert_region s.i s.base (sub64 upto s.base) nid flags s.memory >>= λ m.
      ok (record s { start_region = first_of s.start_region s.i; end_region = s.i + 1; memory = m })

  -- Case (3): `region` overlaps with the new region.
  pub overlap : Region → Pass → Run Pass
  unfolding insert_gap
  overlap region s = (if ltb s.base region.base then insert_gap region.base s else ok s) >>= λ t.
      ok (record t { i = t.i + 1; base = min (region_end region) end })

  -- The loop over the regions, `fuel` rounds at most.
  pub add_loop : ℕ → Pass → Run Pass
  unfolding overlap
  add_loop zero s = timeout
  add_loop (suc fuel) s = elim (get_elem? s.memory.live s.i) [
    | none ↦ ok s
    | some region ↦ elim (leb end region.base) [
      | true ↦ ok s
      | false ↦ elim (leb (region_end region) s.base) [
        | true ↦ add_loop fuel (record s { i = s.i + 1 })
        | false ↦ overlap region s >>= add_loop fuel
      ]
    ]
  ]

  -- What is left behind the last region is inserted too.
  pub add_left : Pass → Run Pass
  unfolding insert_gap
  add_left s = if ltb s.base end then insert_gap end s else ok s

-- `if (start_region != -1) merge_regions(start_region, end_region);`
pub merge_pass : Pass → Option ℕ → Run Memblock
merge_pass s none = ok s.memory
merge_pass s (some start) = merge_regions start s.end_region s.memory

-- Rounds that are enough for `n` regions: each is met twice at most, before and after an insertion.
abbrev add_fuel : Memblock → ℕ
add_fuel m = count m * 2 + 1

-- The first region is written to `regions[0]`.
pub add_first : Region → Memblock → Run Memblock
add_first r m = elim m.rest [
  | [] ↦ fault
  | s ∷ rest ↦ ok (record { live = r ∷ []; rest = rest; size = r.size })
]

unfoldable pub add_range : ℕ → ℕ → ℕ → ℕ → Memblock → Run Memblock
unfolding add_loop add_left merge_pass add_first
add_range base size nid flags m =
    let end = add64 base size in
    let pass : Pass = record {
      i = 0;
      base = base;
      start_region = none;
      end_region = 0;
      memory = m;
    } in
    if size == 0
    then ok m
    else if count m == 0
    then add_first (record { flags = flags; base = base; size = size; nid = nid }) m
    else add_loop end nid flags (add_fuel m) pass >>= add_left end nid flags >>= λ s.
        merge_pass s s.start_region

-- `flags & ~MEMBLOCK_RESERVED`, on a 32-bit enum.
abbrev pub unreserved : ℕ → ℕ
unreserved flags = bit_and flags (2 ^ 32 - 1 - memblock_reserved)

unfoldable pub memblock_add : ℕ → ℕ → ℕ → ℕ → Memblock → Run Memblock
unfolding add_range
memblock_add base size nid flags m = add_range base size nid (unreserved flags) m
