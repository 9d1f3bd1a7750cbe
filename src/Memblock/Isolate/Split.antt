-- ===== src/Memblock/Isolate/Split.antt =====
-- One split in `isolate_range` of ukernel/memblock.c: cases (3) and (4) of its loop.
use cyanea.Prelude.{
  ℕ, ◌+◌, ◌-◌, ◌<◌, ◌^◌, ◌≡◌, sym, ap, subst, ◌∙◌, List, ◌∷◌, ◌++◌, arith, length, set_at_end, ok,
  add64, sub64, All,
}
use cyanea.Memblock.Regions.{Region}
use cyanea.Memblock.Regions.Insert.{memory, region, insert_region_lem}
use cyanea.Memblock.Shape.{Chain, top, Same, Same-append, total-le, top-lt, Chain-append}
use cyanea.Memblock.Good.{Good, Below}
use cyanea.Memblock.Isolate.{split_region}

-- The parts of a region below `at` and from `at` on.
abbrev pub lower : ℕ → Region → Region
lower at r = region r.base (at - r.base) r.nid r.flags

abbrev pub upper : ℕ → Region → Region
upper at r = record r { base = at; size = r.size - (at - r.base) }

Same-split :
    (at : ℕ) (r : Region) (post : List Region)
    → r.base < at
    → at < r.base + r.size
    → Same (r ∷ post) (lower at r ∷ upper at r ∷ post)
Same-split at r post h k =
    let far : at + (r.size - (at - r.base)) ≡ r.base + r.size = omega arith in
    record {
      chain = λ lo c. (
        c.0,
        omega arith,
        omega arith,
        (omega arith, omega arith, omega arith, subst (λ t. Chain t post) (sym far) c.3),
      );
      ends = λ lo. ap (λ t. top t post) far;
      bytes = omega arith;
      map = λ a. ground arith;
    }

pub split_region_lem :
    (at : ℕ) (r s : Region) (pre post rest : List Region) (size : ℕ)
    → Good (memory (pre ++ r ∷ post) (s ∷ rest) size)
    → r.base < at
    → at < r.base + r.size
    → split_region at (length pre) r (memory (pre ++ r ∷ post) (s ∷ rest) size)
      ≡ ok (memory (pre ++ lower at r ∷ upper at r ∷ post) rest size)
unfolding split_region
split_region_lem at r s pre post rest size g h k =
    let chain = Chain-append 0 pre (r ∷ post) g.chain in
    let part : sub64 at r.base ≡ at - r.base = omega (arith, chain.2) in
    let left : sub64 r.size (at - r.base) ≡ r.size - (at - r.base) = omega (arith, chain.2) in
    let small : size < 2 ^ 64 = omega (
      arith,
      g.counted,
      total-le 0 (pre ++ r ∷ post) g.chain,
      top-lt 0 (pre ++ r ∷ post) (omega arith) g.chain,
    ) in
    let whole : add64 (sub64 size (at - r.base)) (at - r.base) ≡ size = omega (arith, chain.2) in
    rw (
      part,
      left,
      set_at_end pre post r (upper at r),
      insert_region_lem pre (upper at r ∷ post) rest s r.base (at - r.base) r.nid r.flags
          (sub64 size (at - r.base)),
      whole,
    )

pub split-Same :
    (at : ℕ) (r : Region) (pre post : List Region)
    → r.base < at
    → at < r.base + r.size
    → Same (pre ++ r ∷ post) (pre ++ lower at r ∷ upper at r ∷ post)
split-Same at r pre post h k = Same-append pre (Same-split at r post h k)

pub split-Good :
    (at : ℕ) (r s : Region) (pre post rest : List Region) (size : ℕ)
    → Good (memory (pre ++ r ∷ post) (s ∷ rest) size)
    → r.base < at
    → at < r.base + r.size
    → Good (memory (pre ++ lower at r ∷ upper at r ∷ post) rest size)
split-Good at r s pre post rest size g h k =
    let same = split-Same at r pre post h k in
    record {
      chain = same.chain 0 g.chain;
      counted = g.counted ∙ sym same.bytes;
      stale = subst (λ t. All (Below t) rest) (sym (same.ends 0)) g.stale.1;
    }
