-- ===== src/Memblock/Isolate.antt =====
-- `isolate_range` of ukernel/memblock.c: the regions are split at the ends of a range.
pub mod Split
pub mod Rounds
pub mod Apart
use cyanea.Prelude.{
  ℕ, zero, suc, ◌+◌, true, false, none, some, ltb, leb, ◌==◌, if◌then◌else◌, length, get_elem?, set,
  add64, sub64, Run, ok, timeout, ◌>>=◌,
}
use cyanea.Memblock.Regions.{Region, Memblock, count, region_end, insert_region}

-- `SUCCESS` and `-ENOSPC`
pub data Status : Type 0 where
  success enospc : Status

-- The variables of the loop; `start_range` and `end_range` are the results.
pub record Cut : Type 0 where
  pub i : ℕ
  pub start_range : ℕ
  pub end_range : ℕ
  pub memory : Memblock

-- Cases (3) and (4): `region`, at `i`, gives its part below `at` to a new region before it.
unfoldable pub split_region : ℕ → ℕ → Region → Memblock → Run Memblock
split_region at i region m =
    let d = sub64 at region.base in
    insert_region i region.base d region.nid region.flags (record m {
      live = set m.live i (record region { base = at; size = sub64 region.size d });
      size = sub64 m.size d;
    })

module _ (base end : ℕ) where
  -- The loop over the regions, `fuel` rounds at most. In case (4) the same index is met again.
  unfoldable pub isolate_loop : ℕ → Cut → Run Cut
  isolate_loop zero s = timeout
  isolate_loop (suc fuel) s = elim (get_elem? s.memory.live s.i) [
    | none ↦ ok s
    | some region ↦ elim (leb end region.base) [
      | true ↦ ok s
      | false ↦ elim (leb (region_end region) base) [
        | true ↦ isolate_loop fuel (record s { i = s.i + 1 })
        | false ↦ elim (ltb region.base base) [
          | true ↦ split_region base s.i region s.memory >>= λ m.
              isolate_loop fuel (record s { i = s.i + 1; memory = m })
          | false ↦ elim (ltb end (region_end region)) [
            | true ↦ split_region end s.i region s.memory >>= λ m.
                isolate_loop fuel (record s { memory = m })
            | false ↦ isolate_loop fuel (record s {
              i = s.i + 1;
              start_range = if s.end_range == 0 then s.i else s.start_range;
              end_range = s.i + 1;
            })
          ]
        ]
      ]
    ]
  ]

-- A region is met once, and once more where it is split at either end.
abbrev pub isolate_fuel : Memblock → ℕ
isolate_fuel m = count m + 3

abbrev pub cut_start : Memblock → Cut
cut_start m = record { i = 0; start_range = 0; end_range = 0; memory = m }

unfoldable pub isolate_range : ℕ → ℕ → Memblock → Run (Status × Cut)
isolate_range base size m =
    if size == 0
    then ok (success, cut_start m)
    else if ltb (length m.live + length m.rest) (count m + 2)
    then ok (enospc, cut_start m)
    else isolate_loop base (add64 base size) (isolate_fuel m) (cut_start m) >>= λ s. ok (success, s)
