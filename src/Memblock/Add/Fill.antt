-- ===== src/Memblock/Add/Fill.antt =====
-- One round of the loop of `add_range` in ukernel/memblock.c, and `fill`, which gives every address
-- of the range that no region holds a region.
use cyanea.Prelude.{
  ℕ, suc, ◌+◌, ◌-◌, ◌*◌, ◌≤◌, ◌<◌, ◌^◌, ◌≡◌, refl, sym, ap, subst, ◌∙◌, inl, inr, min, true, false,
  List, [], ◌∷◌, ◌++◌, Option, arith, append_assoc, Bool-cases, ltb, leb, ltb→lt, if◌then◌else◌,
  length, length-append, get_elem?_at, ok, Returns, returns, ◌>>=◌, add64, sub64,
}
use cyanea.Memblock.Regions.{Region, count, region_end}
use cyanea.Memblock.Regions.Insert.{memory, region, insert_region_lem, insert-Good}
use cyanea.Memblock.Shape.{Chain, top}
use cyanea.Memblock.Good.{Good}
use cyanea.Memblock.Add.{Pass, add_loop, add_left, overlap, insert_gap, first_of}

module _ (end nid flags : ℕ) where
  abbrev pub gap : ℕ → ℕ → List Region
  gap a b = if ltb a b then region a (b - a) nid flags ∷ [] else []

  -- The regions from the loop's position on, with the range from `base` on put in.
  unfoldable pub fill : List Region → ℕ → List Region
  fill [] base = gap base end
  fill (r ∷ rs) base =
      let kept = r ∷ fill rs base in
      let passed = gap base r.base ++ r ∷ fill rs (min (r.base + r.size) end) in
      if leb end r.base
      then gap base end ++ r ∷ rs
      else if leb (r.base + r.size) base
      then kept
      else passed

  pub length-fill : (rs : List Region) (base : ℕ) → length rs ≤ length (fill rs base)
  unfolding fill
  length-fill [] base = omega arith
  length-fill (r ∷ rs) base =
      ground (arith, length-fill rs base, length-fill rs (min (r.base + r.size) end))

  -- The state at the loop's head, with the regions `pre` behind it and `post` before it.
  abbrev pub at : List Region → List Region → List Region → ℕ → ℕ → Option ℕ → ℕ → Pass
  at pre post rest size base start stop = record {
    i = length pre;
    base = base;
    start_region = start;
    end_region = stop;
    memory = memory (pre ++ post) rest size;
  }

  -- What the loop and the last insertion leave, in an array of `max` entries.
  pub record Filled (live : List Region) (max : ℕ) (t : Pass) : Type 0 where
    pub good : Good t.memory
    pub filled : t.memory.live ≡ live
    pub room : count t.memory + length t.memory.rest ≡ max
    pub range : t.end_region ≤ count t.memory

  -- One step of the loop's position.
  step_on :
      (pre rs rest : List Region) (r : Region) (size base : ℕ) (start : Option ℕ) (stop : ℕ)
      → record (at pre (r ∷ rs) rest size base start stop) { i = length pre + 1 }
        ≡ at (pre ++ r ∷ []) rs rest size base start stop
  step_on pre rs rest r size base start stop =
      let e : length pre + 1 ≡ length (pre ++ r ∷ []) = omega (arith, length-append pre (r ∷ [])) in
      let l : pre ++ r ∷ rs ≡ (pre ++ r ∷ []) ++ rs = sym (append_assoc pre (r ∷ []) rs) in
      λ j. record {
        i = e j;
        base = base;
        start_region = start;
        end_region = stop;
        memory = memory (l j) rest size;
      }

  sub64_lem : (a b : ℕ) → a ≤ b → b < 2 ^ 64 → sub64 b a ≡ b - a
  sub64_lem a b h k = omega arith

  -- An insertion at the loop's position.
  insert_gap_lem :
      (pre post rest : List Region) (s : Region) (size base upto : ℕ) (start : Option ℕ) (stop : ℕ)
      → base < upto
      → upto < 2 ^ 64
      → insert_gap end nid flags upto (at pre post (s ∷ rest) size base start stop)
        ≡ ok (record {
          i = length pre;
          base = base;
          start_region = first_of start (length pre);
          end_region = length pre + 1;
          memory =
              memory
                (pre ++ region base (upto - base) nid flags ∷ post)
                rest
                (add64 size (upto - base));
        })
  unfolding insert_gap
  insert_gap_lem pre post rest s size base upto start stop h k = rw (
    sub64_lem base upto (omega arith) k,
    insert_region_lem pre post rest s base (upto - base) nid flags size,
  )

  pub gap-Good :
      (pre post rest : List Region) (s : Region) (size base upto : ℕ)
      → base < upto
      → upto < 2 ^ 64
      → Good (memory (pre ++ post) (s ∷ rest) size)
      → top 0 pre ≤ base
      → Chain upto post
      → Good (
          memory
            (pre ++ region base (upto - base) nid flags ∷ post)
            rest
            (add64 size (upto - base)))
  gap-Good pre post rest s size base upto h k g low behind =
      let e : upto ≡ base + (upto - base) = omega arith in
      insert-Good pre post rest s base (upto - base) nid flags size g low (omega arith)
        (omega arith) (subst (λ t. Chain t post) e behind)

  -- The last insertion, behind the regions that end before the range does.
  pub add_left-Filled :
      (pre post rest : List Region) (size base : ℕ) (start : Option ℕ) (stop : ℕ)
      → end < 2 ^ 64
      → Good (memory (pre ++ post) rest size)
      → (base < end → top 0 pre ≤ base)
      → Chain end post
      → length (gap base end ++ post) < length post + length rest
      → stop ≤ length (pre ++ post)
      → Returns
          (Filled (pre ++ (gap base end ++ post)) (length (pre ++ post) + length rest))
          (add_left end nid flags (at pre post rest size base start stop))
  unfolding add_left
  add_left-Filled pre post rest size base start stop fits g low behind room range =
      elim (Bool-cases (ltb base end)) [
        | inl more ↦ rw more (left rest g (rw more at room) (ltb→lt _ _ more))
        | inr done ↦
            rw done (returns _ (record { good = g; filled = refl; room = refl; range = range }))
      ]
    where
      left :
          (rest : List Region)
          → Good (memory (pre ++ post) rest size)
          → suc (length post) < length post + length rest
          → base < end
          → Returns
              (Filled
                (pre ++ region base (end - base) nid flags ∷ post)
                (length (pre ++ post) + length rest))
              (insert_gap end nid flags end (at pre post rest size base start stop))
      left [] g r h = absurd (omega arith)
      left (s ∷ rest) g r h =
          let more = length-append pre (region base (end - base) nid flags ∷ post) in
          rw (insert_gap_lem pre post rest s size base end start stop h fits) (
            returns _ (record {
              good = gap-Good pre post rest s size base end h fits g (low h) behind;
              filled = refl;
              room = omega (arith, more, length-append pre post);
              range = omega (arith, more);
            }))

  -- What the loop and the last insertion promise for the regions `post`.
  abbrev pub Fills : List Region → Type 0
  Fills post =
      (fuel : ℕ) (pre rest : List Region) (size base : ℕ) (start : Option ℕ) (stop : ℕ)
      → length post * 2 < fuel
      → Good (memory (pre ++ post) rest size)
      → (base < end → top 0 pre ≤ base)
      → length (fill post base) < length post + length rest
      → stop ≤ length (pre ++ post)
      → Returns (Filled (pre ++ fill post base) (length (pre ++ post) + length rest)) (
          add_loop end nid flags fuel (at pre post rest size base start stop)
          >>= add_left end nid flags)

  -- A round that passes over a region which ends before the range begins, or that has no gap
  -- before it: `base` becomes `base'`.
  pub round_on :
      (fuel : ℕ) (pre rs rest : List Region) (r : Region) (size base base' : ℕ) (start : Option ℕ)
      (stop : ℕ)
      → r.base + r.size < 2 ^ 64
      → r.base < end
      → r.base ≤ base
      → base' ≡ (if leb (r.base + r.size) base then base else min (r.base + r.size) end)
      → add_loop end nid flags (suc fuel) (at pre (r ∷ rs) rest size base start stop)
        ≡ add_loop end nid flags fuel (at (pre ++ r ∷ []) rs rest size base' start stop)
  unfolding add_loop overlap
  round_on fuel pre rs rest r size base base' start stop fits h k e =
      let whole : region_end r ≡ r.base + r.size = omega arith in
      let before : leb end r.base ≡ false = ground arith in
      let no_gap : ltb base r.base ≡ false = ground arith in
      rw (add_loop, get_elem?_at pre (r ∷ rs), before, whole)
        (elim (Bool-cases (leb (r.base + r.size) base)) [
          | inl over ↦
              rw (e, over)
                (ap (add_loop end nid flags fuel) (step_on pre rs rest r size base start stop))
          | inr meets ↦
              rw (e, meets, no_gap, whole)
                (ap (add_loop end nid flags fuel)
                  (step_on pre rs rest r size (min (r.base + r.size) end) start stop))
        ])

  -- A round that inserts a region before `r`, and the next, which meets `r` again.
  pub round_gap :
      (fuel : ℕ) (pre rs rest : List Region) (r s : Region) (size base : ℕ) (start : Option ℕ)
      (stop : ℕ)
      → Good (memory (pre ++ r ∷ rs) (s ∷ rest) size)
      → r.base + r.size < 2 ^ 64
      → 0 < r.size
      → r.base < end
      → base < r.base
      → add_loop end nid flags (suc (suc fuel)) (at pre (r ∷ rs) (s ∷ rest) size base start stop)
        ≡ add_loop end nid flags fuel (
            at
              ((pre ++ region base (r.base - base) nid flags ∷ []) ++ r ∷ [])
              rs
              rest
              (add64 size (r.base - base))
              (min (r.base + r.size) end)
              (first_of start (length pre))
              (length pre + 1))
  unfolding add_loop overlap
  round_gap fuel pre rs rest r s size base start stop g fits some_size h k =
      let new = region base (r.base - base) nid flags in
      let whole : region_end r ≡ r.base + r.size = omega arith in
      let before : leb end r.base ≡ false = ground arith in
      let later : leb (r.base + r.size) base ≡ false = ground arith in
      let gap_there : ltb base r.base ≡ true = ground arith in
      rw
        (
          add_loop,
          get_elem?_at pre (r ∷ rs),
          before,
          whole,
          later,
          gap_there,
          insert_gap_lem pre (r ∷ rs) rest s size base r.base start stop k (omega arith),
          whole,
        )
        (ap (add_loop end nid flags (suc fuel)) (
            step_on pre (r ∷ rs) rest new (add64 size (r.base - base)) (min (r.base + r.size) end)
              (first_of start (length pre)) (length pre + 1))
          ∙ round_on fuel (pre ++ new ∷ []) rs rest r (add64 size (r.base - base))
              (min (r.base + r.size) end) (min (r.base + r.size) end) (first_of start (length pre))
              (length pre + 1) fits h (omega arith) (ground arith))

  -- `fill`, one case at a time.
  pub fill_break :
      (r : Region) (rs : List Region) (base : ℕ)
      → end ≤ r.base
      → fill (r ∷ rs) base ≡ gap base end ++ r ∷ rs
  unfolding fill
  fill_break r rs base h = let e : leb end r.base ≡ true = ground arith in rw e

  pub fill_over :
      (r : Region) (rs : List Region) (base : ℕ)
      → r.base < end
      → r.base + r.size ≤ base
      → fill (r ∷ rs) base ≡ r ∷ fill rs base
  unfolding fill
  fill_over r rs base h k =
      let e : leb end r.base ≡ false = ground arith in
      let f : leb (r.base + r.size) base ≡ true = ground arith in rw (e, f)

  pub fill_meets :
      (r : Region) (rs : List Region) (base : ℕ)
      → r.base < end
      → base < r.base + r.size
      → fill (r ∷ rs) base ≡ gap base r.base ++ r ∷ fill rs (min (r.base + r.size) end)
  unfolding fill
  fill_meets r rs base h k =
      let e : leb end r.base ≡ false = ground arith in
      let f : leb (r.base + r.size) base ≡ false = ground arith in rw (e, f)

  pub fill-nil : (base : ℕ) → fill [] base ≡ gap base end
  unfolding fill
  fill-nil base = refl
