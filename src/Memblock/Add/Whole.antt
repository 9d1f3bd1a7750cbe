-- ===== src/Memblock/Add/Whole.antt =====
-- The whole loop of `add_range` in ukernel/memblock.c leaves what `fill` says.
use cyanea.Prelude.{
  ℕ, zero, suc, ◌+◌, ◌-◌, ◌*◌, ◌≤◌, ◌<◌, ◌^◌, ◌≡◌, refl, sym, ap, subst, ◌∙◌, min, true, List, [],
  ◌∷◌, ◌++◌, Option, arith, append_assoc, append-nil, leb, if◌then◌else◌, length, length-append,
  get_elem?_at, Run, Returns, ◌>>=◌, add64,
}
use native.Mathlib.Decide.{dec_lt}
use cyanea.Memblock.Regions.{Region}
use cyanea.Memblock.Regions.Insert.{memory, region}
use cyanea.Memblock.Shape.{top, Chain-append, top-append}
use cyanea.Memblock.Good.{Good}
use cyanea.Memblock.Add.{Pass, add_loop, add_left, first_of}
use cyanea.Memblock.Add.Fill.{
  gap, fill, fill_break, fill_over, fill_meets, fill-nil, at, Filled, Fills, length-fill, round_on,
  round_gap, add_left-Filled, gap-Good,
}

module _ (end nid flags : ℕ) where
  moved :
      {l l' : List Region} {n n' : ℕ} {x : Run Pass}
      → l ≡ l'
      → n ≡ n'
      → Returns (Filled end nid flags l n) x
      → Returns (Filled end nid flags l' n') x
  moved {l} {l'} {n} {n'} {x} e f h =
      subst (λ k. Returns (Filled end nid flags l' k) x) f
        (subst (λ k. Returns (Filled end nid flags k n) x) e h)

  -- A round that moves on to the next region with `base'`.
  Fills-on :
      (r : Region) (rs pre rest : List Region) (f size base base' : ℕ) (start : Option ℕ) (stop : ℕ)
      → Fills end nid flags rs
      → suc (length rs) * 2 < suc (suc f)
      → Good (memory (pre ++ r ∷ rs) rest size)
      → r.base < end
      → r.base ≤ base
      → base' ≡ (if leb (r.base + r.size) base then base else min (r.base + r.size) end)
      → length (fill end nid flags rs base') < length rs + length rest
      → stop ≤ length (pre ++ r ∷ rs)
      → Returns
          (Filled end nid flags
            (pre ++ r ∷ fill end nid flags rs base')
            (length (pre ++ r ∷ rs) + length rest))
          (add_loop end nid flags
              (suc (suc f))
              (at end nid flags pre (r ∷ rs) rest size base start stop)
            >>= add_left end nid flags)
  Fills-on r rs pre rest f size base base' start stop next fuel g h k e room range =
      let chain = Chain-append 0 pre (r ∷ rs) g.chain in
      let at_end = top-append 0 pre (r ∷ []) in
      let same = append_assoc pre (r ∷ []) rs in
      let low : base' < end → top 0 (pre ++ r ∷ []) ≤ base' = λ lt. ground (arith, at_end) in
      rw (round_on end nid flags (suc f) pre rs rest r size base base' start stop chain.2 h k e) (
        moved (append_assoc pre (r ∷ []) (fill end nid flags rs base'))
          (ap (λ l. length l + length rest) same)
          (next (suc f) (pre ++ r ∷ []) rest size base' start stop (omega arith)
            (subst (λ l. Good (memory l rest size)) (sym same) g) low room
            (subst (λ l. stop ≤ length l) (sym same) range)))

  -- A round that inserts a region, and the next.
  Fills-gap :
      (r s : Region) (rs pre rest : List Region) (f size base : ℕ) (start : Option ℕ) (stop : ℕ)
      → Fills end nid flags rs
      → suc (length rs) * 2 < suc (suc f)
      → Good (memory (pre ++ r ∷ rs) (s ∷ rest) size)
      → r.base < end
      → base < r.base
      → top 0 pre ≤ base
      → suc (length (fill end nid flags rs (min (r.base + r.size) end)))
        < length rs + suc (length rest)
      → Returns
          (Filled end nid flags
            (pre
              ++ region base (r.base - base) nid flags
                ∷ r
                ∷ fill end nid flags rs (min (r.base + r.size) end))
            (length (pre ++ r ∷ rs) + suc (length rest)))
          (add_loop end nid flags
              (suc (suc f))
              (at end nid flags pre (r ∷ rs) (s ∷ rest) size base start stop)
            >>= add_left end nid flags)
  Fills-gap r s rs pre rest f size base start stop next fuel g h k low room =
      let chain = Chain-append 0 pre (r ∷ rs) g.chain in
      let new = region base (r.base - base) nid flags in
      let pre2 = (pre ++ new ∷ []) ++ r ∷ [] in
      let base' = min (r.base + r.size) end in
      let two : (xs : List Region) → pre2 ++ xs ≡ pre ++ new ∷ r ∷ xs =
        λ xs. append_assoc (pre ++ new ∷ []) (r ∷ []) xs ∙ append_assoc pre (new ∷ []) (r ∷ xs) in
      let grown =
        gap-Good end nid flags pre (r ∷ rs) rest s size base r.base k (omega arith) g low
          (omega arith, chain.1, chain.2, chain.3) in
      let at_end = top-append 0 (pre ++ new ∷ []) (r ∷ []) in
      let lower : base' < end → top 0 pre2 ≤ base' = λ lt. omega (arith, at_end) in
      let wide = length-append pre (new ∷ r ∷ rs) in
      let count_on : length (pre ++ new ∷ r ∷ rs) + length rest
          ≡ length (pre ++ r ∷ rs) + suc (length rest) =
        omega (arith, wide, length-append pre (r ∷ rs)) in
      rw (round_gap end nid flags f pre rs rest r s size base start stop g chain.2 chain.1 h k) (
        moved (two (fill end nid flags rs base'))
          (ap (λ l. length l + length rest) (two rs) ∙ count_on)
          (next f pre2 rest (add64 size (r.base - base)) base' (first_of start (length pre))
            (length pre + 1) (omega arith)
            (subst (λ l. Good (memory l rest (add64 size (r.base - base)))) (sym (two rs)) grown)
            lower (omega arith)
            (subst (λ l. length pre + 1 ≤ length l) (sym (two rs)) (omega (arith, wide)))))

  pub fill-Fills : end < 2 ^ 64 → (post : List Region) → Fills end nid flags post
  unfolding add_loop
  fill-Fills fits [] zero pre rest size base start stop fuel g low room range = absurd (omega arith)
  fill-Fills fits [] (suc f) pre rest size base start stop fuel g low room range =
      let closed = append-nil (gap end nid flags base end) in
      rw (add_loop, get_elem?_at pre [], fill-nil end nid flags)
        (moved (ap (λ l. pre ++ l) closed) refl (
          add_left-Filled end nid flags pre [] rest size base start stop fits g low tt
            (rw (closed, ← fill-nil end nid flags) room) range))
  fill-Fills fits (r ∷ rs) zero pre rest size base start stop fuel g low room range =
      absurd (omega arith)
  fill-Fills fits (r ∷ rs) (suc zero) pre rest size base start stop fuel g low room range =
      absurd (omega arith)
  fill-Fills fits (r ∷ rs) (suc (suc f)) pre [] size base start stop fuel g low room range =
      absurd (omega (arith, length-fill end nid flags (r ∷ rs) base))
  fill-Fills fits (r ∷ rs) (suc (suc f)) pre (s ∷ rest) size base start stop fuel g low room range =
      let chain = Chain-append 0 pre (r ∷ rs) g.chain in
      elim (dec_lt r.base end) [
        | no later ↦
            let e = fill_break end nid flags r rs base (omega arith) in
            let after : leb end r.base ≡ true = ground arith in
            rw (e, add_loop, get_elem?_at pre (r ∷ rs), after)
              (add_left-Filled end nid flags pre (r ∷ rs) (s ∷ rest) size base start stop fits g low
                (omega arith, chain.1, chain.2, chain.3) (rw e at room) range)
        | yes h ↦ elim (dec_lt base (r.base + r.size)) [
          | no over ↦
              let e = fill_over end nid flags r rs base h (omega arith) in
              rw e (
                Fills-on r rs pre (s ∷ rest) (f) size base base start stop (fill-Fills fits rs) fuel
                  g h (omega arith) (ground arith) (omega (arith, ap length e)) range)
          | yes meets ↦ elim (dec_lt base r.base) [
            | no close ↦
                let none_before : gap end nid flags base r.base ≡ [] = ground arith in
                let e =
                  fill_meets end nid flags r rs base h meets
                  ∙ ap (λ l. l ++ r ∷ fill end nid flags rs (min (r.base + r.size) end))
                      none_before in
                rw e (
                  Fills-on r rs pre (s ∷ rest) f size base (min (r.base + r.size) end) start stop
                    (fill-Fills fits rs) fuel g h (omega arith) (ground arith)
                    (omega (arith, ap length e)) range)
            | yes k ↦
                let one_before : gap end nid flags base r.base
                    ≡ region base (r.base - base) nid flags ∷ [] =
                  ground arith in
                let e =
                  fill_meets end nid flags r rs base h meets
                  ∙ ap (λ l. l ++ r ∷ fill end nid flags rs (min (r.base + r.size) end))
                      one_before in
                rw e (
                  Fills-gap r s rs pre rest f size base start stop (fill-Fills fits rs) fuel g h k
                    (low (omega arith)) (omega (arith, ap length e)))
          ]
        ]
      ]
