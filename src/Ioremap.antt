-- ===== src/Ioremap.antt =====
-- arch/x86/ukernel/ioremap.c: the search for free slots of the fixed mappings.
pub mod Free
pub mod Pages
pub mod Mapped
mod Tests
use cyanea.Prelude.{
  ℕ, zero, suc, ◌+◌, true, false, List, Option, none, some, ltb, leb, if◌then◌else◌, get_elem?, set,
  Run, ok, fault, timeout, ◌>>=◌,
}

-- `TOTAL_FIX_BITMAPS`
abbrev pub total : ℕ
total = 512

-- `mapping`: at the first slot of a run stands its length, anywhere else -1, here `none`.
abbrev pub Mapping : Type 0
Mapping = List (Option ℕ)

-- The loop of `find_free_range`, `fuel` rounds at most: -1, here `none`, or where the run starts.
unfoldable pub search : Mapping → ℕ → ℕ → ℕ → ℕ → ℕ → Run (Option ℕ)
search mapping nrpages zero n i start = timeout
search mapping nrpages (suc fuel) n i start = elim (leb nrpages n) [
  | true ↦ ok (some start)
  | false ↦ elim (ltb total i) [
    | true ↦ ok none
    | false ↦ elim (get_elem? mapping i) [
      | none ↦ fault
      | some (some len) ↦ search mapping nrpages fuel 0 (i + len) (i + len)
      | some none ↦ search mapping nrpages fuel (n + 1) (i + 1) start
    ]
  ]
]

-- The run is reserved; the result is its first slot, which counts from the last one down, as the
-- distance from `FIX_BITMAP_BEGIN`.
unfoldable pub find_free_range : ℕ → Mapping → Run (Option ℕ × Mapping)
find_free_range nrpages mapping = search mapping nrpages (total + 2) 0 0 0 >>= λ found. elim found [
  | none ↦ ok (none, mapping)
  | some start ↦ ok (some start, set mapping start (some nrpages))
]
