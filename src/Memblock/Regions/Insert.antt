-- ===== src/Memblock/Regions/Insert.antt =====
-- `insert_region` of ukernel/memblock.c: it puts a region into a gap and keeps the invariant.
use cyanea.Prelude.{
  ℕ, ◌+◌, ◌≤◌, ◌<◌, ◌^◌, ◌≡◌, List, ◌∷◌, ◌++◌, arith, length, insert_at_end, ok, add64, All-mono,
}
use cyanea.Memblock.Regions.{Region, Memblock, insert_region}
use cyanea.Memblock.Shape.{
  Chain, top, Chain-prefix, Chain-join, top-append, top_mono, top-lt, total-append, total-le,
}
use cyanea.Memblock.Good.{Good}

abbrev pub memory : List Region → List Region → ℕ → Memblock
memory live rest size = record { live = live; rest = rest; size = size }

abbrev pub region : ℕ → ℕ → ℕ → ℕ → Region
region base size nid flags = record { flags = flags; base = base; size = size; nid = nid }

pub insert_region_lem :
    (pre post rest : List Region) (s : Region) (base size nid flags all : ℕ)
    → insert_region (length pre) base size nid flags (memory (pre ++ post) (s ∷ rest) all)
      ≡ ok (memory (pre ++ region base size nid flags ∷ post) rest (add64 all size))
unfolding insert_region
insert_region_lem pre post rest s base size nid flags all =
    rw (insert_at_end pre post (region base size nid flags))

-- The new region lies between those before it and those behind it.
pub insert-Good :
    (pre post rest : List Region) (s : Region) (base size nid flags all : ℕ)
    → Good (memory (pre ++ post) (s ∷ rest) all)
    → top 0 pre ≤ base
    → 0 < size
    → base + size < 2 ^ 64
    → Chain (base + size) post
    → Good (memory (pre ++ region base size nid flags ∷ post) rest (add64 all size))
insert-Good pre post rest s base size nid flags all g lo some_size fits behind =
    let r = region base size nid flags in
    let chained : Chain 0 (pre ++ r ∷ post) =
      Chain-join 0 pre (r ∷ post) (Chain-prefix 0 pre post g.chain) (lo, some_size, fits, behind) in
    let higher : top 0 (pre ++ post) ≤ top 0 (pre ++ r ∷ post) = omega (
      arith,
      top-append 0 pre post,
      top-append 0 pre (r ∷ post),
      top_mono (top 0 pre) (base + size) post,
    ) in
    record {
      chain = chained;
      counted = omega (
        arith,
        g.counted,
        total-append pre post,
        total-append pre (r ∷ post),
        total-le 0 (pre ++ r ∷ post) chained,
        top-lt 0 (pre ++ r ∷ post) (omega arith) chained,
      );
      stale = All-mono rest (λ e h. omega arith) g.stale.1;
    }
