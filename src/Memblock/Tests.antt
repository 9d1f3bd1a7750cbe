-- ===== src/Memblock/Tests.antt =====
-- Runs of ukernel/memblock.c on small inputs, and its theorems at inputs that meet their hypotheses.
use cyanea.Prelude.{
  ◌≡◌, refl, true, false, [], ◌∷◌, ◌⊎◌, inl, ◌++◌, arith, ok, fault, Run, Returns, ◌>>=◌, sub64,
}
use cyanea.Memblock.Regions.{
  Region, Memblock, no_node, memblock_reserved, insert_region, remove_region, merge_regions,
}
use cyanea.Memblock.Regions.Merge.Squash.{squash, merge_regions-squash}
use cyanea.Memblock.Regions.Insert.{memory, region}
use cyanea.Memblock.Regions.Remove.{remove_region-size}
use cyanea.Memblock.Good.{Good, Alike}
use cyanea.Memblock.Add.{memblock_add}
use cyanea.Memblock.Add.View.{memblock_add-view, Adds}
use cyanea.Memblock.Isolate.{success, isolate_range, isolate_loop, split_region}
use cyanea.Memblock.Update.{
  update_range, update_loop, remove_loop, memblock_setclr_flag, memblock_set_node, memblock_remove,
}
use cyanea.Memblock.Update.View.{
  memblock_setclr_flag-view, memblock_set_node-view, Changes, mark_attr,
}
use cyanea.Memblock.Update.Remove.{memblock_remove-view, Removes}
use cyanea.Memblock.Alloc.{memblock_alloc, alloc_round, find_in_range_node, find_loop}
use cyanea.Align.{align_kernel}
use cyanea.Memblock.Add.Fill.{fill}
use cyanea.Memblock.Alloc.Found.{memblock_alloc-Given, Given}

abbrev zeroed : Region
zeroed = region 0 0 0 0

-- The memory at boot, with an array of six entries.
abbrev empty : Memblock
empty = memory [] (zeroed ∷ zeroed ∷ zeroed ∷ zeroed ∷ zeroed ∷ zeroed ∷ []) 0

-- Two regions with a hole between them.
abbrev two : Memblock
two =
    memory (region 0x1000 0x1000 1 0 ∷ region 0x3000 0x2000 1 0 ∷ [])
      (zeroed ∷ zeroed ∷ zeroed ∷ zeroed ∷ []) 0x3000

two-Good : Good two
two-Good = omega arith

-- The hole is filled, and all becomes one region.
add_runs :
    memblock_add 0x1800 0x2000 1 0 two
    ≡ ok (
        memory
          (region 0x1000 0x4000 1 0 ∷ [])
          (region 0x3000 0x2000 1 0 ∷ region 0x3000 0x2000 1 0 ∷ zeroed ∷ zeroed ∷ zeroed ∷ [])
          0x4000)
unfolding memblock_add insert_region merge_regions
add_runs = refl

memblock_add-view_example :
    Returns
      (Adds 0x1800 0x3800 (record { nid = 1; flags = 0 }) two)
      (memblock_add 0x1800 0x2000 1 0 two)
unfolding fill
memblock_add-view_example =
    memblock_add-view 0x1800 0x2000 1 0 two two-Good (omega arith) (omega arith)

-- A range in the middle of the second region is reserved.
reserve_runs :
    memblock_setclr_flag 0x3800 0x800 true memblock_reserved two
    ≡ ok (
      success,
      memory
          (region 0x1000 0x1000 1 0
            ∷ region 0x3000 0x800 1 0
            ∷ region 0x3800 0x800 1 0xFFFF
            ∷ region 0x4000 0x1000 1 0
            ∷ [])
          (zeroed ∷ zeroed ∷ [])
          0x3000,
    )
unfolding memblock_setclr_flag update_range isolate_range isolate_loop split_region insert_region
    update_loop merge_regions
reserve_runs = refl

memblock_setclr_flag-view_example :
    Returns
      (Changes 0x3800 0x4000 (mark_attr true memblock_reserved) two)
      (memblock_setclr_flag 0x3800 0x800 true memblock_reserved two)
memblock_setclr_flag-view_example =
    memblock_setclr_flag-view 0x3800 0x800 true memblock_reserved two two-Good (omega arith)
      (omega arith)

memblock_set_node-view_example :
    Returns
      (Changes 0x1800 0x3800 (λ v. record { nid = 2; flags = v.flags }) two)
      (memblock_set_node 0x1800 0x2000 2 two)
memblock_set_node-view_example =
    memblock_set_node-view 0x1800 0x2000 2 two two-Good (omega arith) (omega arith)

memblock_remove-view_example :
    Returns (Removes 0x1800 0x3800 two) (memblock_remove 0x1800 0x2000 two)
memblock_remove-view_example =
    memblock_remove-view 0x1800 0x2000 two two-Good (omega arith) (omega arith)

memblock_alloc-Given_example :
    Returns
      (λ (p, m').
        ((p ≡ 0) × (m' ≡ two))
        ⊎ Given 0x800 0x1000 0x1800 0x9000 1 two p m'
        ⊎ ((true ≡ false) × Given 0x800 0x1000 0x1800 0x9000 no_node two p m'))
      (memblock_alloc 0x800 0x1000 0x1800 0x9000 1 true two)
memblock_alloc-Given_example =
    memblock_alloc-Given 0x800 0x1000 0x1800 0x9000 12 refl (omega arith) (omega arith)
      (omega arith) 1 true two two-Good (omega arith)

-- The first page of the second region is given out.
alloc_runs :
    memblock_alloc 0x800 0x1000 0x1800 0x9000 1 true two
    ≡ ok (
      0x3000,
      memory
          (region 0x1000 0x1000 1 0 ∷ region 0x3000 0x800 1 0xFFFF ∷ region 0x3800 0x1800 1 0 ∷ [])
          (zeroed ∷ zeroed ∷ zeroed ∷ [])
          0x3000,
    )
unfolding memblock_alloc alloc_round find_in_range_node find_loop align_kernel memblock_setclr_flag
    update_range isolate_range isolate_loop split_region insert_region update_loop merge_regions
alloc_runs = refl

-- Memory is added on two nodes, and that of the second is removed. When the first is moved to the
-- second node, it joins the removed region.
history : Run Memblock
unfolding memblock_add memblock_remove memblock_set_node update_range isolate_range isolate_loop
    split_region insert_region update_loop merge_regions remove_loop remove_region
history = do
  a ← memblock_add 0x1000 0x1000 0 0 empty
  b ← memblock_add 0x2000 0x1000 1 0 a
  (err, c) ← memblock_remove 0x2000 0x1000 b
  (err', d) ← memblock_set_node 0x1000 0x1000 1 c
  ok d

history_runs : history ≡ fault
unfolding history
history_runs = refl

-- Two regions side by side, and one behind a hole.
abbrev three : Memblock
three =
    memory (region 0x1000 0x1000 1 0 ∷ region 0x2000 0x1000 1 0 ∷ region 0x4000 0x1000 1 0 ∷ [])
      (zeroed ∷ zeroed ∷ zeroed ∷ []) 0x3000

three-Good : Good three
three-Good = omega arith

merge_regions-squash_example :
    Returns
      (λ m'.
        Alike three m'
        × (m'.live
            ≡ []
              ++ (squash (region 0x1000 0x1000 1 0) (region 0x2000 0x1000 1 0 ∷ [])
                  ++ region 0x4000 0x1000 1 0 ∷ [])))
      (merge_regions 0 1 three)
merge_regions-squash_example =
    merge_regions-squash 0 1 [] (region 0x2000 0x1000 1 0 ∷ []) (region 0x4000 0x1000 1 0 ∷ [])
      (region 0x1000 0x1000 1 0) three three-Good refl refl (inl refl)

squash_runs :
    squash (region 0x1000 0x1000 1 0) (region 0x2000 0x1000 1 0 ∷ region 0x4000 0x1000 1 0 ∷ [])
    ≡ region 0x1000 0x2000 1 0 ∷ region 0x4000 0x1000 1 0 ∷ []
unfolding squash
squash_runs = refl

remove_region-size_example :
    Returns
      (λ m'. (m'.live ≡ region 0x3000 0x2000 1 0 ∷ []) × (m'.size ≡ sub64 0x3000 0x2000))
      (remove_region 0 two)
remove_region-size_example =
    remove_region-size [] [] (zeroed ∷ zeroed ∷ zeroed ∷ zeroed ∷ []) (region 0x1000 0x1000 1 0)
      (region 0x3000 0x2000 1 0) 0x3000
