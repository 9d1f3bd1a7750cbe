-- ===== src/Memblock/Update.antt =====
-- `memblock_remove`, `memblock_setclr_flag`, `memblock_set_node`, `memblock_reserve` and
-- `memblock_free` of ukernel/memblock.c: what is done to the regions of an isolated range.
pub mod Marked
pub mod View
pub mod Remove
use Prim.Native.Nat.{bit_and, bit_or}
use cyanea.Prelude.{
  ℕ, zero, suc, ◌+◌, ◌-◌, ◌^◌, Bool, true, false, none, some, if◌then◌else◌, get_elem?, set, Run,
  ok, fault, ◌>>=◌,
}
use cyanea.Memblock.Regions.{Region, Memblock, memblock_reserved, remove_region, merge_regions}
use cyanea.Memblock.Isolate.{Status, success, enospc, Cut, isolate_range}

-- `for (i = end - 1; i >= start; i--) remove_region(i);`, with `k` regions to go.
unfoldable pub remove_loop : ℕ → ℕ → Memblock → Run Memblock
remove_loop start zero m = ok m
remove_loop start (suc k) m = remove_region (start + k) m >>= remove_loop start k

unfoldable pub memblock_remove : ℕ → ℕ → Memblock → Run (Status × Memblock)
memblock_remove base size m = isolate_range base size m >>= λ (err, s). elim err [
  | enospc ↦ ok (enospc, s.memory)
  | success ↦
      remove_loop s.start_range (s.end_range - s.start_range) s.memory >>= λ m'. ok (success, m')
]

-- `for (i = start; i < end; i++)` with a change to `regions[i]`, for `k` regions.
unfoldable pub update_loop : (Region → Region) → ℕ → ℕ → Memblock → Run Memblock
update_loop f zero i m = ok m
update_loop f (suc k) i m = elim (get_elem? m.live i) [
  | none ↦ fault
  | some region ↦ update_loop f k (i + 1) (record m { live = set m.live i (f region) })
]

-- `regions[i].flags |= flags`, or `&= ~flags`, on a 32-bit enum.
abbrev pub setclr : Bool → ℕ → Region → Region
setclr true flags region = record region { flags = bit_or region.flags flags }
setclr false flags region = record region { flags = bit_and region.flags (2 ^ 32 - 1 - flags) }

abbrev pub to_node : ℕ → Region → Region
to_node nid region = record region { nid = nid }

-- The body that `memblock_setclr_flag` and `memblock_set_node` share.
unfoldable pub update_range : (Region → Region) → ℕ → ℕ → Memblock → Run (Status × Memblock)
update_range f base size m = isolate_range base size m >>= λ (err, s). elim err [
  | enospc ↦ ok (enospc, s.memory)
  | success ↦
      update_loop f (s.end_range - s.start_range) s.start_range s.memory
      >>= merge_regions s.start_range s.end_range
      >>= λ m'. ok (success, m')
]

unfoldable pub memblock_setclr_flag : ℕ → ℕ → Bool → ℕ → Memblock → Run (Status × Memblock)
memblock_setclr_flag base size on flags m = update_range (setclr on flags) base size m

unfoldable pub memblock_set_node : ℕ → ℕ → ℕ → Memblock → Run (Status × Memblock)
memblock_set_node base size nid m = update_range (to_node nid) base size m

unfoldable pub memblock_free : ℕ → ℕ → Memblock → Run Memblock
memblock_free base size m =
    memblock_setclr_flag base size false memblock_reserved m >>= λ (err, m'). ok m'

unfoldable pub memblock_reserve : ℕ → ℕ → Memblock → Run (Status × Memblock)
memblock_reserve base size m = memblock_setclr_flag base size true memblock_reserved m

-- `memblock_phys_mem_size`
abbrev pub memblock_phys_mem_size : Memblock → ℕ
memblock_phys_mem_size m = m.size
