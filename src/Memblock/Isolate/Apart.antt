-- ===== src/Memblock/Isolate/Apart.antt =====
-- The loop of `isolate_range` in ukernel/memblock.c cuts the array into the regions before the
-- range, those in it and those behind it.
use cyanea.Prelude.{
  ℕ, zero, suc, ◌+◌, ◌≤◌, ◌<◌, ◌≡◌, refl, sym, ap, subst, ◌∙◌, List, [], ◌∷◌, ◌++◌, append_assoc,
  append-nil, arith, length, if◌then◌else◌, ◌==◌, length-append, Run, Returns, returns,
  Returns_mono, All, All-append,
}
use native.Mathlib.Decide.{dec_lt}
use cyanea.Memblock.Regions.{Region, Memblock, count}
use cyanea.Memblock.Regions.Insert.{memory}
use cyanea.Memblock.Shape.{Chain, Chain-lower, Same, Same-refl, Same-trans, Chain-append}
use cyanea.Memblock.Good.{Good}
use cyanea.Memblock.Isolate.{Cut, isolate_loop, isolate_fuel, cut_start}
use cyanea.Memblock.Isolate.Split.{lower, upper, split-Same, split-Good}
use cyanea.Memblock.Isolate.Rounds.{
  Marks, at, All-behind, Marks-snoc, Before, Inside, Behind, Apart, stop_at, round_before,
  round_lower, round_upper, round_inside,
}

module _ (base end : ℕ) where
  moved :
      {l l' : List Region} (n : ℕ) {x : Run Cut}
      → l ≡ l'
      → Returns (Apart base end l (length l + n)) x
      → Returns (Apart base end l' (length l' + n)) x
  moved n {x = x} e h = subst (λ k. Returns (Apart base end k (length k + n)) x) e h

  Apart-trans :
      {l l' : List Region} {n : ℕ} {t : Cut}
      → Same l l'
      → Apart base end l' n t
      → Apart base end l n t
  Apart-trans s a = record {
    before = a.before;
    inside = a.inside;
    after = a.after;
    cut = a.cut;
    all_before = a.all_before;
    all_inside = a.all_inside;
    all_after = a.all_after;
    marks = a.marks;
    same = Same-trans s a.same;
    good = a.good;
    room = a.room;
    spare = a.spare;
  }

  -- A region that begins in the range and ends behind it: three rounds.
  upper-Apart :
      (fuel : ℕ) (r : Region) (rs before inside rest : List Region) (size start stop : ℕ)
      → 1 < fuel
      → Good (memory ((before ++ inside) ++ r ∷ rs) rest size)
      → base ≤ r.base
      → r.base < end
      → end < r.base + r.size
      → All (Before base end) before
      → All (Inside base end) inside
      → Marks before inside start stop
      → 0 < length rest
      → Returns
          (Apart base end
            ((before ++ inside) ++ r ∷ rs)
            (length ((before ++ inside) ++ r ∷ rs) + length rest))
          (isolate_loop base end (suc fuel) (at (before ++ inside) (r ∷ rs) rest size start stop))
  upper-Apart zero r rs before inside rest size start stop fuel g low h k front mid marks room =
      absurd (omega arith)
  upper-Apart (suc zero) r rs before inside rest size start stop fuel g low h k front mid marks
        room =
      absurd (omega arith)
  upper-Apart (suc (suc f)) r rs before inside [] size start stop fuel g low h k front mid marks
        room =
      absurd (omega arith)
  upper-Apart (suc (suc f)) r rs before inside (s ∷ rest) size start stop fuel g low h k front mid
        marks room =
      let pre = before ++ inside in
      let chain = Chain-append 0 pre (r ∷ rs) g.chain in
      let a = lower end r in
      let b = upper end r in
      let g' = split-Good end r s pre rs rest size g h k in
      let chain' = Chain-append 0 pre (a ∷ b ∷ rs) g'.chain in
      let behind : All (Behind base end) (b ∷ rs) =
        All-behind end (b ∷ rs) (omega arith, chain'.3.1, chain'.3.2, chain'.3.3) in
      let list : pre ++ a ∷ b ∷ rs ≡ (pre ++ a ∷ []) ++ b ∷ rs =
        sym (append_assoc pre (a ∷ []) (b ∷ rs)) in
      let same = split-Same end r pre rs h k in
      let long = length-append pre (a ∷ b ∷ rs) in
      rw
        (
          round_upper base end (suc (suc f)) pre rs rest r s size start stop g chain.2 low chain.1 h
              k,
          round_inside base end (suc f) pre (b ∷ rs) rest a size start stop chain'.2 chain'.1 low
              (omega arith),
          stop_at base end f (pre ++ a ∷ []) (b ∷ rs) rest size
              (if stop == 0 then length pre else start) (length pre + 1) behind,
        )
        (returns _ (record {
          before = before;
          inside = inside ++ a ∷ [];
          after = b ∷ rs;
          cut =
              ap (λ l. l ++ b ∷ rs) (append_assoc before inside (a ∷ []))
              ∙ append_assoc before (inside ++ a ∷ []) (b ∷ rs);
          all_before = front;
          all_inside = All-append (Inside base end) inside (a ∷ []) mid ((low, omega arith), tt);
          all_after = behind;
          marks = Marks-snoc before inside a start stop marks;
          same = subst (λ l. Same (pre ++ r ∷ rs) l) list same;
          good = subst (λ l. Good (memory l rest size)) list g';
          room =
              subst (λ l. length l + length rest ≡ length (pre ++ r ∷ rs) + suc (length rest)) list
                (omega (arith, long, length-append pre (r ∷ rs)));
          spare = omega arith;
        }))

  -- The loop from the first region that begins in the range or behind it.
  Inside-Apart :
      (post : List Region) (fuel : ℕ) (before inside rest : List Region) (size start stop : ℕ)
      → length post + 1 < fuel
      → Good (memory ((before ++ inside) ++ post) rest size)
      → Chain base post
      → base < end
      → All (Before base end) before
      → All (Inside base end) inside
      → Marks before inside start stop
      → 0 < length rest
      → Returns
          (Apart base end
            ((before ++ inside) ++ post)
            (length ((before ++ inside) ++ post) + length rest))
          (isolate_loop base end fuel (at (before ++ inside) post rest size start stop))
  Inside-Apart post zero before inside rest size start stop fuel g chain wide front mid marks room =
      absurd (omega arith)
  Inside-Apart [] (suc f) before inside rest size start stop fuel g chain wide front mid marks
        room =
      rw (stop_at base end f (before ++ inside) [] rest size start stop tt) (
        returns _ (record {
          before = before;
          inside = inside;
          after = [];
          cut = append_assoc before inside [];
          all_before = front;
          all_inside = mid;
          all_after = tt;
          marks = marks;
          same = Same-refl _;
          good = g;
          room = refl;
          spare = omega arith;
        }))
  Inside-Apart (r ∷ rs) (suc f) before inside rest size start stop fuel g chain wide front mid marks
        room =
      elim (dec_lt r.base end) [
        | no later ↦
            let behind : All (Behind base end) (r ∷ rs) =
              All-behind end (r ∷ rs) (omega arith, chain.1, chain.2, chain.3) in
            rw (stop_at base end f (before ++ inside) (r ∷ rs) rest size start stop behind) (
              returns _ (record {
                before = before;
                inside = inside;
                after = r ∷ rs;
                cut = append_assoc before inside (r ∷ rs);
                all_before = front;
                all_inside = mid;
                all_after = behind;
                marks = marks;
                same = Same-refl _;
                good = g;
                room = refl;
                spare = omega arith;
              }))
        | yes h ↦ elim (dec_lt end (r.base + r.size)) [
          | no fits ↦
              let pre = before ++ inside in
              let q = append_assoc before inside (r ∷ []) in
              let list : (before ++ (inside ++ r ∷ [])) ++ rs ≡ pre ++ r ∷ rs =
                ap (λ l. l ++ rs) (sym q) ∙ append_assoc pre (r ∷ []) rs in
              rw
                (
                  round_inside base end f pre rs rest r size start stop chain.2 chain.1 chain.0
                      (omega arith),
                  q,
                )
                (moved _ list (
                  Inside-Apart rs f before (inside ++ r ∷ []) rest size
                    (if stop == 0 then length pre else start) (length pre + 1) (omega arith)
                    (subst (λ l. Good (memory l rest size)) (sym list) g)
                    (Chain-lower (r.base + r.size) base rs (omega arith) chain.3) wide front
                    (All-append (Inside base end) inside (r ∷ []) mid ((chain.0, omega arith), tt))
                    (Marks-snoc before inside r start stop marks) room))
          | yes more ↦
              upper-Apart f r rs before inside rest size start stop (omega arith) g chain.0 h more
                front mid marks room
        ]
      ]

  from_here :
      (before post : List Region) (fuel : ℕ) (rest : List Region) (size : ℕ)
      → length post + 1 < fuel
      → Good (memory (before ++ post) rest size)
      → Chain base post
      → base < end
      → All (Before base end) before
      → 0 < length rest
      → Returns
          (Apart base end (before ++ post) (length (before ++ post) + length rest))
          (isolate_loop base end fuel (at before post rest size 0 0))
  from_here before post fuel rest size enough g chain wide front room =
      let none_yet = append-nil before in
      subst
        (λ l.
          Returns (Apart base end (l ++ post) (length (l ++ post) + length rest))
            (isolate_loop base end fuel (at l post rest size 0 0)))
        none_yet
        (Inside-Apart post fuel before [] rest size 0 0 enough
          (subst (λ l. Good (memory (l ++ post) rest size)) (sym none_yet) g) chain wide front tt
          (refl, refl) room)

  -- The loop from the first region of the array on: two entries are to spare.
  Before-Apart :
      (post : List Region) (fuel : ℕ) (before rest : List Region) (size : ℕ)
      → length post + 2 < fuel
      → Good (memory (before ++ post) rest size)
      → base < end
      → All (Before base end) before
      → 1 < length rest
      → Returns
          (Apart base end (before ++ post) (length (before ++ post) + length rest))
          (isolate_loop base end fuel (at before post rest size 0 0))
  Before-Apart post zero before rest size fuel g wide front room = absurd (omega arith)
  Before-Apart [] (suc f) before rest size fuel g wide front room =
      rw (stop_at base end f before [] rest size 0 0 tt) (
        returns _ (record {
          before = before;
          inside = [];
          after = [];
          cut = refl;
          all_before = front;
          all_inside = tt;
          all_after = tt;
          marks = (refl, refl);
          same = Same-refl _;
          good = g;
          room = refl;
          spare = omega arith;
        }))
  Before-Apart (r ∷ rs) (suc f) before [] size fuel g wide front room = absurd (omega arith)
  Before-Apart (r ∷ rs) (suc f) before (s ∷ rest) size fuel g wide front room =
      let chain = Chain-append 0 before (r ∷ rs) g.chain in
      elim (dec_lt r.base base) [
        | no later ↦
            from_here before (r ∷ rs) (suc f) (s ∷ rest) size (omega arith) g
              (omega arith, chain.1, chain.2, chain.3) wide front (omega arith)
        | yes early ↦ elim (dec_lt base (r.base + r.size)) [
          | no passed ↦
              let list = append_assoc before (r ∷ []) rs in
              rw
                (round_before base end f before rs (s ∷ rest) r size 0 0 chain.2 (omega arith)
                  (omega arith))
                (moved _ list (
                  Before-Apart rs f (before ++ r ∷ []) (s ∷ rest) size (omega arith)
                    (subst (λ l. Good (memory l (s ∷ rest) size)) (sym list) g) wide
                    (All-append (Before base end) before (r ∷ []) front (omega arith, tt)) room))
          | yes meets ↦
              let a = lower base r in
              let b = upper base r in
              let pre = before ++ a ∷ [] in
              let g' = split-Good base r s before rs rest size g early meets in
              let list : pre ++ b ∷ rs ≡ before ++ a ∷ b ∷ rs =
                append_assoc before (a ∷ []) (b ∷ rs) in
              let chain' = Chain-append 0 before (a ∷ b ∷ rs) g'.chain in
              let same =
                subst (λ l. Same (before ++ r ∷ rs) l) (sym list)
                  (split-Same base r before rs early meets) in
              let long : length (pre ++ b ∷ rs) + length rest
                  ≡ length (before ++ r ∷ rs) + suc (length rest) =
                omega (
                  arith,
                  ap length list,
                  length-append before (a ∷ b ∷ rs),
                  length-append before (r ∷ rs),
                ) in
              rw
                (round_lower base end f before rs rest r s size 0 0 g chain.2 (omega arith) early
                  meets)
                (Returns_mono
                  (from_here pre (b ∷ rs) f rest size (omega arith)
                    (subst (λ l. Good (memory l rest size)) (sym list) g')
                    (omega arith, chain'.3.1, chain'.3.2, chain'.3.3) wide
                    (All-append (Before base end) before (a ∷ []) front (omega arith, tt))
                    (omega arith))
                  (λ t cut.
                    subst (λ n. Apart base end (before ++ r ∷ rs) n t) long (Apart-trans same cut)))
        ]
      ]

  -- The whole loop, in an array with two entries to spare.
  pub isolate_loop-Apart :
      (m : Memblock)
      → Good m
      → base < end
      → 1 < length m.rest
      → Returns
          (Apart base end m.live (count m + length m.rest))
          (isolate_loop base end (isolate_fuel m) (cut_start m))
  isolate_loop-Apart m g wide room =
      Before-Apart m.live (isolate_fuel m) [] m.rest m.size (omega arith) g wide tt room
