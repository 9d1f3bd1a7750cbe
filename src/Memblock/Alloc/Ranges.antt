-- ===== src/Memblock/Alloc/Ranges.antt =====
-- The walk of `__next_mem_pfn_range` of ukernel/memblock.c over the regions.
use cyanea.Prelude.{
  ℕ, zero, suc, ◌+◌, ◌-◌, ◌≤◌, ◌<◌, ◌≡◌, ◌||◌, true, false, inl, inr, List, [], ◌∷◌, none, some,
  leb, ◌==◌, length, drop, Bool, if◌then◌else◌, ◌⊎◌, ap, arith,
}
use cyanea.Align.{pfn_up, pfn_down}
use cyanea.Memblock.Regions.{Region, Memblock, region_end, no_node}
use cyanea.Memblock.Alloc.{PfnRange, next_loop, next_mem_pfn_range}

if-cases {ℓ} :
    {A : Type ℓ} (test : Bool) {x y z : A} → (if test then x else y) ≡ z → (x ≡ z) ⊎ (y ≡ z)
if-cases true e = inl e
if-cases false e = inr e

some-index : {r r' : PfnRange} → some r ≡ some r' → r.index ≡ r'.index
some-index {r = r} e = ap (λ o. elim o [ none ↦ r.index | some q ↦ q.index ]) e

next_loop-index :
    (nid i : ℕ) (rs : List Region) (r : PfnRange)
    → next_loop nid i rs ≡ some r
    → (i ≤ r.index) × (r.index < i + length rs)
unfolding next_loop
next_loop-index nid i [] r e = absurd (ground arith)
next_loop-index nid i (reg ∷ rs) r e =
    let rest : next_loop nid (i + 1) rs ≡ some r → (i ≤ r.index) × (r.index < i + suc (length rs)) =
      λ h. let (lo, hi) = next_loop-index nid (i + 1) rs r h in (omega arith, omega arith) in
    elim (if-cases (leb (pfn_down (region_end reg)) (pfn_up reg.base)) e) [
      | inl later ↦ rest later
      | inr here ↦ elim (if-cases (nid == no_node || nid == reg.nid) here) [
        | inl found ↦ let at_i : i ≡ r.index = some-index found in (omega arith, omega arith)
        | inr later ↦ rest later
      ]
    ]

length-drop : (i : ℕ) (rs : List Region) → length (drop i rs) ≡ length rs - i
length-drop zero rs = omega arith
length-drop (suc i) [] = omega arith
length-drop (suc i) (reg ∷ rs) = omega (arith, length-drop i rs)

-- A range that is found is that of a region from `i` on.
pub next_mem_pfn_range-index :
    (i nid : ℕ) (m : Memblock) (r : PfnRange)
    → next_mem_pfn_range i nid m ≡ some r
    → (i ≤ r.index) × (r.index < i + (length m.live - i))
unfolding next_mem_pfn_range
next_mem_pfn_range-index i nid m r e =
    let (lo, hi) = next_loop-index nid i (drop i m.live) r e in
    (lo, omega (arith, hi, length-drop i m.live))
