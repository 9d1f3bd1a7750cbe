-- ===== src/Memblock/Add/View.antt =====
-- `memblock_add` of ukernel/memblock.c against the map from addresses to nodes and flags.
use cyanea.Prelude.{
  ℕ, zero, suc, ◌+◌, ◌≤◌, ◌<◌, ◌^◌, ◌≡◌, refl, ap, ◌∙◌, min, false, List, ◌&&◌, [], ◌∷◌, some, none,
  Option, arith, ltb, leb, if◌then◌else◌, ◌==◌, length, Returns, returns, Returns-bind,
  Returns_mono, ◌>>=◌, add64, bit_and, All-mono,
}
use native.Mathlib.Decide.{dec_lt}
use cyanea.Memblock.Regions.{Region, Memblock, count}
use cyanea.Memblock.Regions.Insert.{memory, region}
use cyanea.Memblock.Regions.Merge.{merge_regions-Alike}
use cyanea.Memblock.Shape.{Chain, view, view_below, Attr, Same-refl}
use cyanea.Memblock.Good.{Good, Alike}
use cyanea.Memblock.Add.{
  Pass, add_loop, add_left, merge_pass, add_first, add_range, memblock_add, add_fuel,
}
use cyanea.Memblock.Add.Fill.{fill, fill_break, fill_over, fill_meets, fill-nil, at}
use cyanea.Memblock.Add.Whole.{fill-Fills}

-- The first answer, if there is one.
abbrev pub over {ℓ} : {A : Type ℓ} → Option A → Option A → Option A
over (some v) o = some v
over none o = o

-- The addresses from `base` on below `end` get `v`.
abbrev pub within : ℕ → ℕ → Attr → ℕ → Option Attr
within base end v a = if leb base a && ltb a end then some v else none

module _ (end nid flags : ℕ) where
  abbrev new : Attr
  new = record { nid = nid; flags = flags }

  -- What lies in a region keeps its node and flags, and the rest of the range gets the new ones.
  view-fill :
      (lo : ℕ) (rs : List Region) (base a : ℕ)
      → Chain lo rs
      → base ≤ end
      → view (fill end nid flags rs base) a ≡ over (view rs a) (within base end new a)
  view-fill lo [] base a h k = rw (fill-nil end nid flags base) (ground arith)
  view-fill lo (r ∷ rs) base a (p, q, s, h) k = elim (dec_lt r.base end) [
    | no later ↦
        let below = view_below r.base a (r ∷ rs) (omega arith, q, s, h) in
        rw (fill_break end nid flags r rs base (omega arith)) (ground (arith, below))
    | yes lt ↦ elim (dec_lt base (r.base + r.size)) [
      | no passed ↦
          rw (fill_over end nid flags r rs base lt (omega arith))
            (ground (arith, view-fill (r.base + r.size) rs base a h k))
      | yes meets ↦
          let below = view_below (r.base + r.size) a rs h in
          rw (fill_meets end nid flags r rs base lt meets) (
            ground (
              arith,
              below,
              view-fill (r.base + r.size) rs (min (r.base + r.size) end) a h (omega arith),
            ))
    ]
  ]

merge_pass-Alike :
    (start : Option ℕ) (t : Pass)
    → Good t.memory
    → 0 < length t.memory.rest
    → t.end_region ≤ count t.memory
    → Returns (Alike t.memory) (merge_pass t start)
unfolding merge_pass
merge_pass-Alike none t g r h =
    returns t.memory (record { good = g; same = Same-refl t.memory.live; room = refl })
merge_pass-Alike (some start) t g r h =
    merge_regions-Alike start t.end_region t.memory g h (omega arith)

-- What an addition does to the map, and that it keeps the invariant.
abbrev pub Adds : ℕ → ℕ → Attr → Memblock → Memblock → Type 0
Adds base end new m m' =
    Good m' × ((a : ℕ) → view m'.live a ≡ over (view m.live a) (within base end new a))

-- The first region of an empty memory.
add_first-Adds :
    (base size nid flags : ℕ) (s : Region) (rest : List Region) (all : ℕ)
    → Good (memory [] (s ∷ rest) all)
    → 0 < size
    → base + size < 2 ^ 64
    → Returns
        (Adds base (base + size) (new base nid flags) (memory [] (s ∷ rest) all))
        (add_first (region base size nid flags) (memory [] (s ∷ rest) all))
unfolding add_first
add_first-Adds base size nid flags s rest all g some_size fits = returns _ (
  record {
    chain = (omega arith, some_size, fits, tt);
    counted = omega arith;
    stale = All-mono rest (λ e h. omega arith) g.stale.1;
  },
  λ a. ground arith,
)

-- The loop, the last insertion and the merge.
add_more-Adds :
    (base size nid flags : ℕ) (m : Memblock)
    → Good m
    → base + size < 2 ^ 64
    → length (fill (base + size) nid flags m.live base) < count m + length m.rest
    → Returns (Adds base (base + size) (new base nid flags) m) (
        add_loop
          (base + size)
          nid
          flags
          (add_fuel m)
          (at (base + size) nid flags [] m.live m.rest m.size base none 0)
        >>= add_left (base + size) nid flags
        >>= λ s. merge_pass s s.start_region)
add_more-Adds base size nid flags m g fits room =
    let end = base + size in
    Returns-bind (Adds base end (new base nid flags) m) (λ s. merge_pass s s.start_region)
      (fill-Fills end nid flags fits m.live (add_fuel m) [] m.rest m.size base none 0 (omega arith)
        g (λ lt. omega arith) room (omega arith))
      λ t filled.
        Returns_mono
          (merge_pass-Alike t.start_region t filled.good
            (omega (arith, ap length filled.filled, filled.room)) filled.range)
          λ m' al. (
            al.good,
            λ a.
                al.same.map a
                ∙ ap (λ l. view l a) filled.filled
                ∙ view-fill end nid flags 0 m.live base a g.chain (omega arith),
          )

add_range-Adds :
    (base size nid flags : ℕ) (live rest : List Region) (all : ℕ)
    → Good (memory live rest all)
    → base + size < 2 ^ 64
    → length (fill (base + size) nid flags live base) < length live + length rest
    → Returns
        (Adds base (base + size) (new base nid flags) (memory live rest all))
        (add_range base size nid flags (memory live rest all))
unfolding add_range
add_range-Adds base zero nid flags live rest all g fits room = returns _ (g, λ a. ground arith)
add_range-Adds base (suc size) nid flags [] [] all g fits room = absurd (omega arith)
add_range-Adds base (suc size) nid flags [] (s ∷ rest) all g fits room =
    let some_size : (suc size == 0) ≡ false = ground arith in
    rw some_size (add_first-Adds base (suc size) nid flags s rest all g (omega arith) fits)
add_range-Adds base (suc size) nid flags (r ∷ live) rest all g fits room =
    let some_size : (suc size == 0) ≡ false = ground arith in
    let not_first : (suc (length live) == 0) ≡ false = ground arith in
    let end : add64 base (suc size) ≡ base + suc size = omega arith in
    rw (some_size, not_first, end)
      (add_more-Adds base (suc size) nid flags (memory (r ∷ live) rest all) g fits room)

-- In a good memory, for a range that ends below 2^64 and an array with more entries to spare than the
-- range has gaps to fill, `memblock_add` returns, keeps the invariant, leaves the node and flags of
-- every address that lay in a region, and gives the other addresses of the range, and no others, the
-- node and the flags, of which only the upper 16 of 32 bits are kept (without MEMBLOCK_RESERVED).
pub memblock_add-view :
    (base size nid flags : ℕ) (m : Memblock)
    → Good m
    → base + size < 2 ^ 64
    → length (fill (base + size) nid (bit_and flags 0xFFFF0000) m.live base)
      < count m + length m.rest
    → Returns
        (Adds base (base + size) (record { nid = nid; flags = bit_and flags 0xFFFF0000 }) m)
        (memblock_add base size nid flags m)
unfolding memblock_add
memblock_add-view base size nid flags m g fits room =
    add_range-Adds base size nid (bit_and flags 0xFFFF0000) m.live m.rest m.size g fits room
