-- ===== src/Memblock/Shape.antt =====
-- What the regions of ukernel/memblock.c stand for: a map from addresses to a node and flags.
-- `Chain` is the order of the array, `view` the map, and `Same` the relation between two lists of
-- regions that stand for one map over one stretch of memory.
use cyanea.Prelude.{
  ℕ, ◌+◌, ◌≤◌, ◌<◌, ◌^◌, ◌≡◌, refl, ap, ◌∙◌, Bool, ◌&&◌, List, [], ◌∷◌, ◌++◌, Option, none, some,
  arith, ltb, leb, length, get_elem?, if◌then◌else◌,
}
use cyanea.Memblock.Regions.{Region}

-- Where a region ends, if nothing wraps.
abbrev pub last_of : Region → ℕ
last_of r = r.base + r.size

-- From `lo` on the regions are not empty, lie in order and apart, and end below 2^64.
abbrev pub Chain : ℕ → List Region → Type 0
Chain lo [] = Unit
Chain lo (r ∷ rs) =
    (lo ≤ r.base) × (0 < r.size) × (r.base + r.size < 2 ^ 64) × Chain (r.base + r.size) rs

-- Where the last region ends.
abbrev pub top : ℕ → List Region → ℕ
top lo [] = lo
top lo (r ∷ rs) = top (r.base + r.size) rs

-- The number of bytes in all.
abbrev pub total : List Region → ℕ
total [] = 0
total (r ∷ rs) = r.size + total rs

-- Does the address lie in the region?
abbrev pub covers : Region → ℕ → Bool
covers r a = leb r.base a && ltb a (r.base + r.size)

pub record Attr : Type 0 where
  pub nid : ℕ
  pub flags : ℕ

abbrev pub attr : Region → Attr
attr r = record { nid = r.nid; flags = r.flags }

-- What the map says of an address: the node and flags of the first region that holds it.
abbrev pub view : List Region → ℕ → Option Attr
view [] a = none
view (r ∷ rs) a = if covers r a then some (attr r) else view rs a

pub record Same (xs ys : List Region) : Type 0 where
  pub chain : (lo : ℕ) → Chain lo xs → Chain lo ys
  pub ends : (lo : ℕ) → top lo ys ≡ top lo xs
  pub bytes : total ys ≡ total xs
  pub map : (a : ℕ) → view ys a ≡ view xs a

pub Same-refl : (xs : List Region) → Same xs xs
Same-refl xs = record { chain = λ lo h. h; ends = λ lo. refl; bytes = refl; map = λ a. refl }

pub Same-trans : {xs ys zs : List Region} → Same xs ys → Same ys zs → Same xs zs
Same-trans p q = record {
  chain = λ lo h. q.chain lo (p.chain lo h);
  ends = λ lo. q.ends lo ∙ p.ends lo;
  bytes = q.bytes ∙ p.bytes;
  map = λ a. q.map a ∙ p.map a;
}

pub Same-cons : (r : Region) {xs ys : List Region} → Same xs ys → Same (r ∷ xs) (r ∷ ys)
Same-cons r p = record {
  chain = λ lo (a, b, c, h). (a, b, c, p.chain (r.base + r.size) h);
  ends = λ lo. p.ends (r.base + r.size);
  bytes = ap (λ t. r.size + t) p.bytes;
  map = λ a. ap (λ o. if covers r a then some (attr r) else o) (p.map a);
}

-- A change in the middle of the array.
pub Same-append :
    (pre : List Region) {xs ys : List Region} → Same xs ys → Same (pre ++ xs) (pre ++ ys)
Same-append [] p = p
Same-append (r ∷ pre) p = Same-cons r (Same-append pre p)

pub Chain-append : (lo : ℕ) (pre xs : List Region) → Chain lo (pre ++ xs) → Chain (top lo pre) xs
Chain-append lo [] xs h = h
Chain-append lo (r ∷ pre) xs (a, b, c, h) = Chain-append (r.base + r.size) pre xs h

pub Chain-prefix : (lo : ℕ) (pre xs : List Region) → Chain lo (pre ++ xs) → Chain lo pre
Chain-prefix lo [] xs h = tt
Chain-prefix lo (r ∷ pre) xs (a, b, c, h) = (a, b, c, Chain-prefix (r.base + r.size) pre xs h)

pub Chain-join :
    (lo : ℕ) (pre xs : List Region) → Chain lo pre → Chain (top lo pre) xs → Chain lo (pre ++ xs)
Chain-join lo [] xs h k = k
Chain-join lo (r ∷ pre) xs (a, b, c, h) k = (a, b, c, Chain-join (r.base + r.size) pre xs h k)

pub Chain-lower : (lo lo' : ℕ) (xs : List Region) → lo' ≤ lo → Chain lo xs → Chain lo' xs
Chain-lower lo lo' [] h k = tt
Chain-lower lo lo' (r ∷ xs) h (a, b, c, k) = (omega arith, b, c, k)

pub top-append : (lo : ℕ) (xs ys : List Region) → top lo (xs ++ ys) ≡ top (top lo xs) ys
top-append lo [] ys = refl
top-append lo (r ∷ xs) ys = top-append (r.base + r.size) xs ys

pub total-append : (xs ys : List Region) → total (xs ++ ys) ≡ total xs + total ys
total-append [] ys = omega arith
total-append (r ∷ xs) ys = omega (arith, total-append xs ys)

pub le-top : (lo : ℕ) (xs : List Region) → Chain lo xs → lo ≤ top lo xs
le-top lo [] h = omega arith
le-top lo (r ∷ xs) (a, b, c, h) = omega (arith, le-top (r.base + r.size) xs h)

-- Addresses below the first region belong to none.
pub view_below : (lo a : ℕ) (xs : List Region) → Chain lo xs → a < lo → view xs a ≡ none
view_below lo a [] h k = refl
view_below lo a (r ∷ xs) (p, q, s, h) k = ground (arith, view_below (r.base + r.size) a xs h)

pub view-append :
    (xs ys : List Region) (a : ℕ)
    → view (xs ++ ys) a ≡ elim (view xs a) [ some v ↦ some v | none ↦ view ys a ]
view-append [] ys a = refl
view-append (r ∷ xs) ys a = ground (arith, view-append xs ys a)

-- The bytes fit below the end of the last region.
pub total-le : (lo : ℕ) (xs : List Region) → Chain lo xs → lo + total xs ≤ top lo xs
total-le lo [] h = omega arith
total-le lo (r ∷ xs) (a, b, c, h) = omega (arith, total-le (r.base + r.size) xs h)

-- The last region of the array, which the entries behind it must not touch.
pub last_entry :
    (lo : ℕ) (r : Region) (xs : List Region)
    → Chain lo (r ∷ xs)
    → (l : Region) × (get_elem? (r ∷ xs) (length xs) ≡ some l)
      × (l.base + l.size ≡ top lo (r ∷ xs))
      × (0 < l.size)
last_entry lo r [] (a, b, c, h) = (r, refl, refl, b)
last_entry lo r (s ∷ xs) (a, b, c, h) = last_entry (r.base + r.size) s xs h

pub top_mono : (lo hi : ℕ) (xs : List Region) → lo ≤ hi → top lo xs ≤ top hi xs
top_mono lo hi [] h = h
top_mono lo hi (r ∷ xs) h = omega arith

pub top-lt : (lo : ℕ) (xs : List Region) → lo < 2 ^ 64 → Chain lo xs → top lo xs < 2 ^ 64
top-lt lo [] h k = h
top-lt lo (r ∷ xs) h (a, b, c, k) = top-lt (r.base + r.size) xs c k
