-- ===== src/Memblock/Good.antt =====
-- The invariant of `struct memblock` in ukernel/memblock.c.
use cyanea.Prelude.{ℕ, ◌+◌, ◌-◌, ◌≤◌, ◌≡◌, length, All}
use cyanea.Memblock.Regions.{Memblock, Region, count}
use cyanea.Memblock.Shape.{Chain, top, total, Same}

-- The entry, which is no longer in use, does not lie at `t` or behind: no region that ends at `t`
-- can be taken to continue in it.
abbrev pub Below : ℕ → Region → Type 0
Below t s = s.base ≤ t - 1

-- The regions in use are in order and apart, `size` is the sum of their sizes, and what the
-- entries behind them still hold lies below the end of the last region.
pub record Good (m : Memblock) : Type 0 where
  pub chain : Chain 0 m.live
  pub counted : m.size ≡ total m.live
  pub stale : All (Below (top 0 m.live)) m.rest

-- The map of memory is the same, and the array has kept its length.
pub record Alike (m m' : Memblock) : Type 0 where
  pub good : Good m'
  pub same : Same m.live m'.live
  pub room : count m' + length m'.rest ≡ count m + length m.rest
