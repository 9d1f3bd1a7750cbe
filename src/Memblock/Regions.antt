-- ===== src/Memblock/Regions.antt =====
-- `struct memblock_region`, `struct memblock` and the routines that change the array of regions:
-- `insert_region`, `remove_region` and `merge_regions` of ukernel/memblock.c.
--
-- The array `regions` is cut at `memory.n`: `live` holds the entries below `n`, `rest` the entries
-- from `n` up to `max`. The code never clears an entry that it gives up, so `rest` keeps what
-- stood there, and `live ++ rest` is the whole array. `phys_addr_t`, `size_t` and the flags are
-- unsigned numbers; `nid`, an `int`, is kept as its 32-bit pattern.
pub mod Merge
pub mod Insert
pub mod Remove
use cyanea.Prelude.{
  ℕ, zero, suc, ◌-◌, ◌^◌, Bool, true, false, ◌&&◌, List, [], ◌∷◌, ◌++◌, Option, none, some, ltb,
  ◌==◌, if◌then◌else◌, length, get_elem?, set, insert_at, remove_at, add64, sub64, Run, ok, halt,
  fault, ◌>>=◌,
}

-- `enum memblock_flags`
abbrev pub memblock_none : ℕ
memblock_none = 0

abbrev pub memblock_reserved : ℕ
memblock_reserved = 0xFFFF

-- The node -1: no node, or any node.
abbrev pub no_node : ℕ
no_node = 2 ^ 32 - 1

pub record Region : Type 0 where
  pub flags : ℕ
  pub base : ℕ
  pub size : ℕ
  pub nid : ℕ

pub record Memblock : Type 0 where
  pub live : List Region
  pub rest : List Region
  pub size : ℕ

-- `memory.n`
abbrev pub count : Memblock → ℕ
count m = length m.live

-- `memory.regions[i]`, beyond `n` too; `none` is an access outside the array.
abbrev pub entry : Memblock → ℕ → Option Region
entry m i = get_elem? (m.live ++ m.rest) i

-- `base + size`, in 64 bits
abbrev pub region_end : Region → ℕ
region_end r = add64 r.base r.size

-- `insert_region`: the assertion `n + 1 <= max` fails where no entry is left. The entries from `i`
-- on move up, over the entry `n`.
insert_at_index : ℕ → Region → Memblock → List Region → Run Memblock
insert_at_index i r m [] = halt
insert_at_index i r m (s ∷ rest) =
    ok (record { live = insert_at i r m.live; rest = rest; size = add64 m.size r.size })

unfoldable pub insert_region : ℕ → ℕ → ℕ → ℕ → ℕ → Memblock → Run Memblock
unfolding insert_at_index
insert_region i base size nid flags m =
    insert_at_index i (record { flags = flags; base = base; size = size; nid = nid }) m m.rest

-- `memmove(region, region + 1, ...)` and `n--`: the last entry stays where it was, as the first of
-- the entries that are no longer in use.
close_gap : ℕ → Memblock → Option Memblock
close_gap i m = elim (get_elem? m.live (count m - 1)) [
  | none ↦ none
  | some last ↦ some (record m { live = remove_at i m.live; rest = last ∷ m.rest })
]

or_fault {ℓ} : {A : Type ℓ} → Option A → Run A
or_fault none = fault
or_fault (some a) = ok a

-- `remove_region`: `region->size` is read after the entries have moved, so from the entry that
-- now stands at `i`.
unfoldable pub remove_region : ℕ → Memblock → Run Memblock
unfolding close_gap
remove_region i m = elim (close_gap i m) [
  | none ↦ fault
  | some m' ↦ elim (entry m' i) [
    | none ↦ fault
    | some region ↦ ok (record m' { size = sub64 m'.size region.size })
  ]
]

-- The regions lie side by side and agree in node and flags.
unfoldable pub joins : Region → Region → Bool
joins curr next = region_end curr == next.base && curr.nid == next.nid && curr.flags == next.flags

-- The entry at `i + 1` goes into `curr`, the entry at `i`. With `n < i + 2` the length of the move,
-- `n - (i + 2)`, wraps round to nearly 2^64 entries.
join_next : ℕ → Region → Region → Memblock → Run Memblock
unfolding close_gap or_fault
join_next i curr next m =
    let grown = record m {
      live = set m.live i (record curr { size = add64 curr.size next.size });
    } in
    if ltb (suc i) (count m) then or_fault (close_gap (suc i) grown) else fault

-- The loop of `merge_regions`, for the `end_region - i` rounds that are left: a round steps `i` up
-- or `end_region` down.
merge_loop : ℕ → ℕ → Memblock → Run Memblock
unfolding joins join_next
merge_loop zero i m = ok m
merge_loop (suc k) i m = elim (entry m i) [
  | none ↦ fault
  | some curr ↦ elim (entry m (suc i)) [
    | none ↦ fault
    | some next ↦ elim (joins curr next) [
      | true ↦ join_next i curr next m >>= merge_loop k i
      | false ↦ merge_loop k (suc i) m
    ]
  ]
]

unfoldable pub merge_regions : ℕ → ℕ → Memblock → Run Memblock
unfolding merge_loop
merge_regions start stop m = merge_loop (stop - (start - 1)) (start - 1) m
