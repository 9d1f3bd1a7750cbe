-- ===== src/Memblock/Update/Marked.antt =====
-- Lists of regions in which those of a range are changed, as `memblock_setclr_flag` and
-- `memblock_set_node` of ukernel/memblock.c do.
use mathlib.Core.Option
use cyanea.Prelude.{
  ℕ, suc, ◌+◌, ◌≡◌, refl, sym, ap, subst, ◌∙◌, ◌&&◌, List, [], ◌∷◌, ◌++◌, map, Option, arith, ltb,
  leb, if◌then◌else◌, All, length,
}
use cyanea.Memblock.Regions.{Region}
use cyanea.Memblock.Regions.Insert.{memory}
use cyanea.Memblock.Shape.{Chain, top, total, view, Attr, attr}
use cyanea.Memblock.Good.{Good, Below}
use cyanea.Memblock.Isolate.Rounds.{Before, Inside, Behind}

-- The answer for an address, changed by `g` in the range.
abbrev pub changed : ℕ → ℕ → (Attr → Attr) → ℕ → Option Attr → Option Attr
changed base end g a o = if leb base a && ltb a end then Option.map g o else o

-- The regions lie where they did.
pub record Placed (xs ys : List Region) : Type 0 where
  pub chain : (lo : ℕ) → Chain lo xs → Chain lo ys
  pub ends : (lo : ℕ) → top lo ys ≡ top lo xs
  pub bytes : total ys ≡ total xs
  pub same_length : length ys ≡ length xs

Placed-cons :
    (r s : Region) {xs ys : List Region}
    → s.base ≡ r.base
    → s.size ≡ r.size
    → Placed xs ys
    → Placed (r ∷ xs) (s ∷ ys)
Placed-cons r s {xs} {ys} b z p =
    let far : s.base + s.size ≡ r.base + r.size = omega arith in
    record {
      chain = λ lo c. (
        omega arith,
        omega arith,
        omega arith,
        subst (λ t. Chain t ys) (sym far) (p.chain (r.base + r.size) c.3),
      );
      ends = λ lo. ap (λ t. top t ys) far ∙ p.ends (r.base + r.size);
      bytes = omega (arith, p.bytes);
      same_length = ap suc p.same_length;
    }

Placed-refl : (xs : List Region) → Placed xs xs
Placed-refl xs = record { chain = λ lo c. c; ends = λ lo. refl; bytes = refl; same_length = refl }

pub Placed-append :
    (pre : List Region) {xs ys : List Region} → Placed xs ys → Placed (pre ++ xs) (pre ++ ys)
Placed-append [] p = p
Placed-append (r ∷ pre) p = Placed-cons r r refl refl (Placed-append pre p)

pub Placed-Good :
    {xs ys : List Region} {rest : List Region} {size : ℕ}
    → Placed xs ys
    → Good (memory xs rest size)
    → Good (memory ys rest size)
Placed-Good {rest = rest} p g = record {
  chain = p.chain 0 g.chain;
  counted = g.counted ∙ sym p.bytes;
  stale = subst (λ t. All (Below t) rest) (sym (p.ends 0)) g.stale;
}

-- A change `f` to a region that keeps its place and does `g` to its node and flags.
pub record Keeps (f : Region → Region) (g : Attr → Attr) : Type 0 where
  pub base : (r : Region) → (f r).base ≡ r.base
  pub size : (r : Region) → (f r).size ≡ r.size
  pub attrs : (r : Region) → attr (f r) ≡ g (attr r)

module _ (f : Region → Region) (g : Attr → Attr) (k : Keeps f g) where
  pub Placed-map : (xs after : List Region) → Placed (xs ++ after) (map f xs ++ after)
  Placed-map [] after = Placed-refl after
  Placed-map (r ∷ xs) after = Placed-cons r (f r) (k.base r) (k.size r) (Placed-map xs after)

  module _ (base end a : ℕ) where
    view-Behind :
        (xs : List Region) → All (Behind base end) xs → view xs a ≡ changed base end g a (view xs a)
    view-Behind [] h = ground arith
    view-Behind (r ∷ xs) (h, hs) = ground (arith, view-Behind xs hs)

    view-Inside :
        (xs after : List Region)
        → All (Inside base end) xs
        → All (Behind base end) after
        → view (map f xs ++ after) a ≡ changed base end g a (view (xs ++ after) a)
    view-Inside [] after h hs = view-Behind after hs
    view-Inside (r ∷ xs) after (h, hi) hs =
        ground (arith, k.base r, k.size r, k.attrs r, view-Inside xs after hi hs)

    pub view-changed :
        (before inside after : List Region)
        → All (Before base end) before
        → All (Inside base end) inside
        → All (Behind base end) after
        → view (before ++ (map f inside ++ after)) a
          ≡ changed base end g a (view (before ++ (inside ++ after)) a)
    view-changed [] inside after hb hi hs = view-Inside inside after hi hs
    view-changed (r ∷ before) inside after (h, hb) hi hs =
        ground (arith, view-changed before inside after hb hi hs)
