-- ===== src/Memblock/Isolate/Rounds.antt =====
-- One round of the loop of `isolate_range` in ukernel/memblock.c, case by case, and the shape of its
-- result.
use cyanea.Prelude.{
  ℕ, suc, ◌+◌, ◌≤◌, ◌<◌, ◌^◌, ◌≡◌, sym, ap, true, false, List, [], ◌∷◌, ◌++◌, append_assoc, arith,
  length, leb, ltb, if◌then◌else◌, ◌==◌, length-append, get_elem?_at, ok, All, All-mono,
}
use cyanea.Memblock.Regions.{Region, count, region_end}
use cyanea.Memblock.Regions.Insert.{memory}
use cyanea.Memblock.Shape.{Chain, Same}
use cyanea.Memblock.Good.{Good}
use cyanea.Memblock.Isolate.{Cut, isolate_loop}
use cyanea.Memblock.Isolate.Split.{lower, upper, split_region_lem}

-- `start_range` and `end_range`: 0 and 0, or the indices of the regions in the range.
abbrev pub Marks : List Region → List Region → ℕ → ℕ → Type 0
Marks before [] start stop = (start ≡ 0) × (stop ≡ 0)
Marks before (r ∷ rs) start stop =
    (start ≡ length before) × (stop ≡ length before + suc (length rs))

-- The loop's state, with the regions `pre` behind it and `post` before it.
abbrev pub at : List Region → List Region → List Region → ℕ → ℕ → ℕ → Cut
at pre post rest size start stop = record {
  i = length pre;
  start_range = start;
  end_range = stop;
  memory = memory (pre ++ post) rest size;
}

pub All-behind : (lo : ℕ) (rs : List Region) → Chain lo rs → All (λ r. lo ≤ r.base) rs
All-behind lo [] h = tt
All-behind lo (r ∷ rs) (a, b, c, h) =
    (a, All-mono rs (λ s p. omega arith) (All-behind (r.base + r.size) rs h))

pub Marks-snoc :
    (before inside : List Region) (r : Region) (start stop : ℕ)
    → Marks before inside start stop
    → Marks before
        (inside ++ r ∷ [])
        (if stop == 0 then length (before ++ inside) else start)
        (length (before ++ inside) + 1)
Marks-snoc before [] r start stop (a, b) = ground (arith, length-append before [])
Marks-snoc before (x ∷ xs) r start stop (a, b) =
    ground (arith, length-append before (x ∷ xs), length-append xs (r ∷ []))

module _ (base end : ℕ) where
  abbrev pub Before : Region → Type 0
  Before r = r.base + r.size ≤ base

  abbrev pub Inside : Region → Type 0
  Inside r = (base ≤ r.base) × (r.base + r.size ≤ end)

  abbrev pub Behind : Region → Type 0
  Behind r = end ≤ r.base

  -- The result of the loop on the regions `live`, in an array of `max` entries.
  pub record Apart (live : List Region) (max : ℕ) (t : Cut) : Type 0 where
    pub before : List Region
    pub inside : List Region
    pub after : List Region
    pub cut : t.memory.live ≡ before ++ (inside ++ after)
    pub all_before : All Before before
    pub all_inside : All Inside inside
    pub all_after : All Behind after
    pub marks : Marks before inside t.start_range t.end_range
    pub same : Same live t.memory.live
    pub good : Good t.memory
    pub room : count t.memory + length t.memory.rest ≡ max
    pub spare : 0 < length t.memory.rest + length after

  -- The loop stops at the first region that begins behind the range.
  pub stop_at :
      (fuel : ℕ) (pre post rest : List Region) (size start stop : ℕ)
      → All Behind post
      → isolate_loop base end (suc fuel) (at pre post rest size start stop)
        ≡ ok (at pre post rest size start stop)
  unfolding isolate_loop
  stop_at fuel pre [] rest size start stop h = rw (isolate_loop, get_elem?_at pre [])
  stop_at fuel pre (r ∷ rs) rest size start stop (h, k) =
      let behind : leb end r.base ≡ true = ground arith in
      rw (isolate_loop, get_elem?_at pre (r ∷ rs), behind)

  step_on :
      (pre rs rest : List Region) (r : Region) (size start stop : ℕ)
      → record (at pre (r ∷ rs) rest size start stop) { i = length pre + 1 }
        ≡ at (pre ++ r ∷ []) rs rest size start stop
  step_on pre rs rest r size start stop =
      let e : length pre + 1 ≡ length (pre ++ r ∷ []) = omega (arith, length-append pre (r ∷ [])) in
      let l : pre ++ r ∷ rs ≡ (pre ++ r ∷ []) ++ rs = sym (append_assoc pre (r ∷ []) rs) in
      λ j. record {
        i = e j;
        start_range = start;
        end_range = stop;
        memory = memory (l j) rest size;
      }

  -- Case (2).
  pub round_before :
      (fuel : ℕ) (pre rs rest : List Region) (r : Region) (size start stop : ℕ)
      → r.base + r.size < 2 ^ 64
      → r.base < end
      → r.base + r.size ≤ base
      → isolate_loop base end (suc fuel) (at pre (r ∷ rs) rest size start stop)
        ≡ isolate_loop base end fuel (at (pre ++ r ∷ []) rs rest size start stop)
  unfolding isolate_loop
  round_before fuel pre rs rest r size start stop fits h k =
      let whole : region_end r ≡ r.base + r.size = omega arith in
      let e : leb end r.base ≡ false = ground arith in
      let f : leb (r.base + r.size) base ≡ true = ground arith in
      rw (isolate_loop, get_elem?_at pre (r ∷ rs), e, whole, f)
        (ap (isolate_loop base end fuel) (step_on pre rs rest r size start stop))

  -- Case (3).
  pub round_lower :
      (fuel : ℕ) (pre rs rest : List Region) (r s : Region) (size start stop : ℕ)
      → Good (memory (pre ++ r ∷ rs) (s ∷ rest) size)
      → r.base + r.size < 2 ^ 64
      → r.base < end
      → r.base < base
      → base < r.base + r.size
      → isolate_loop base end (suc fuel) (at pre (r ∷ rs) (s ∷ rest) size start stop)
        ≡ isolate_loop base end fuel
            (at (pre ++ lower base r ∷ []) (upper base r ∷ rs) rest size start stop)
  unfolding isolate_loop
  round_lower fuel pre rs rest r s size start stop g fits h k l =
      let whole : region_end r ≡ r.base + r.size = omega arith in
      let e : leb end r.base ≡ false = ground arith in
      let f : leb (r.base + r.size) base ≡ false = ground arith in
      let p : ltb r.base base ≡ true = ground arith in
      rw
        (
          isolate_loop,
          get_elem?_at pre (r ∷ rs),
          e,
          whole,
          f,
          p,
          split_region_lem base r s pre rs rest size g k l,
        )
        (ap (isolate_loop base end fuel)
          (step_on pre (upper base r ∷ rs) rest (lower base r) size start stop))

  -- Case (4).
  pub round_upper :
      (fuel : ℕ) (pre rs rest : List Region) (r s : Region) (size start stop : ℕ)
      → Good (memory (pre ++ r ∷ rs) (s ∷ rest) size)
      → r.base + r.size < 2 ^ 64
      → base ≤ r.base
      → 0 < r.size
      → r.base < end
      → end < r.base + r.size
      → isolate_loop base end (suc fuel) (at pre (r ∷ rs) (s ∷ rest) size start stop)
        ≡ isolate_loop base end fuel (at pre (lower end r ∷ upper end r ∷ rs) rest size start stop)
  unfolding isolate_loop
  round_upper fuel pre rs rest r s size start stop g fits low some_size h l =
      let whole : region_end r ≡ r.base + r.size = omega arith in
      let e : leb end r.base ≡ false = ground arith in
      let f : leb (r.base + r.size) base ≡ false = ground arith in
      let p : ltb r.base base ≡ false = ground arith in
      let q : ltb end (r.base + r.size) ≡ true = ground arith in
      rw (
        isolate_loop,
        get_elem?_at pre (r ∷ rs),
        e,
        whole,
        f,
        p,
        whole,
        q,
        split_region_lem end r s pre rs rest size g h l,
      )

  -- Case (5).
  pub round_inside :
      (fuel : ℕ) (pre rs rest : List Region) (r : Region) (size start stop : ℕ)
      → r.base + r.size < 2 ^ 64
      → 0 < r.size
      → base ≤ r.base
      → r.base + r.size ≤ end
      → isolate_loop base end (suc fuel) (at pre (r ∷ rs) rest size start stop)
        ≡ isolate_loop base end fuel (
            at
              (pre ++ r ∷ [])
              rs
              rest
              size
              (if stop == 0 then length pre else start)
              (length pre + 1))
  unfolding isolate_loop
  round_inside fuel pre rs rest r size start stop fits some_size low high =
      let whole : region_end r ≡ r.base + r.size = omega arith in
      let e : leb end r.base ≡ false = ground arith in
      let f : leb (r.base + r.size) base ≡ false = ground arith in
      let p : ltb r.base base ≡ false = ground arith in
      let q : ltb end (r.base + r.size) ≡ false = ground arith in
      rw (isolate_loop, get_elem?_at pre (r ∷ rs), e, whole, f, p, whole, q)
        (ap (isolate_loop base end fuel)
          (step_on pre rs rest r size (if stop == 0 then length pre else start) (length pre + 1)))
