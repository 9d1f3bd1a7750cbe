-- ===== src/Memblock/Update/Remove.antt =====
-- `memblock_remove` of ukernel/memblock.c: what it does to the map, and to `memory.size`.
use cyanea.Prelude.{
  ℕ, zero, suc, ◌+◌, ◌-◌, ◌<◌, ◌^◌, ◌≡◌, refl, sym, ap, subst, ◌∙◌, false, List, [], ◌∷◌, ◌++◌,
  append_assoc, Option, none, arith, ltb, leb, ◌==◌, ◌&&◌, if◌then◌else◌, length, length-append,
  split_at, add64, ok, Returns, returns, Returns-bind, All,
}
use cyanea.Memblock.Regions.{Region, Memblock, count, remove_region}
use cyanea.Memblock.Regions.Remove.{remove_region-live}
use cyanea.Memblock.Regions.Insert.{memory}
use cyanea.Memblock.Shape.{Chain, Chain-lower, view, Attr}
use cyanea.Memblock.Good.{Good}
use cyanea.Memblock.Isolate.{Status, success, isolate_range}
use cyanea.Memblock.Isolate.Rounds.{Marks, Before, Inside, Behind}
use cyanea.Memblock.Isolate.Apart.{isolate_loop-Apart}
use cyanea.Memblock.Update.{remove_loop, memblock_remove}

-- The regions of a stretch of the array are removed, the last first.
remove_loop-live :
    (k : ℕ) (inside before after : List Region) (m : Memblock)
    → length inside ≡ k
    → m.live ≡ before ++ (inside ++ after)
    → Returns (λ m'. m'.live ≡ before ++ after) (remove_loop (length before) k m)
unfolding remove_loop
remove_loop-live zero [] before after m n e = returns m e
remove_loop-live zero (r ∷ rs) before after m n e = absurd (omega arith)
remove_loop-live (suc k) inside before after m n e =
    let (pre, v, post, cut, at) = split_at k inside (omega arith) in
    let short : length post ≡ 0 = omega (arith, ap length cut, length-append pre (v ∷ post)) in
    let index : length before + k ≡ length (before ++ pre) =
      omega (arith, length-append before pre) in
    let list : m.live ≡ (before ++ pre) ++ v ∷ after =
      e
      ∙ ap (λ l. before ++ (l ++ after)) (cut ∙ ap (λ l. pre ++ v ∷ l) (nil_of post short))
      ∙ ap (λ l. before ++ l) (append_assoc pre (v ∷ []) after)
      ∙ sym (append_assoc before pre (v ∷ after)) in
    let whole : m ≡ memory ((before ++ pre) ++ v ∷ after) m.rest m.size =
      λ i. memory (list i) m.rest m.size in
    rw index (
      Returns-bind (λ m'. m'.live ≡ before ++ after) (remove_loop (length before) k)
        (subst
          (λ x.
            Returns (λ m'. m'.live ≡ (before ++ pre) ++ after)
              (remove_region (length (before ++ pre)) x))
          (sym whole) (remove_region-live (before ++ pre) after m.rest v m.size))
        (λ m' l. remove_loop-live k pre before after m' at (l ∙ append_assoc before pre after)))
  where
    nil_of : (xs : List Region) → length xs ≡ 0 → xs ≡ []
    nil_of [] h = refl
    nil_of (x ∷ xs) h = absurd (omega arith)

Chain-after : (lo : ℕ) (inside after : List Region) → Chain lo (inside ++ after) → Chain lo after
Chain-after lo [] after c = c
Chain-after lo (r ∷ rs) after (p, q, s, c) =
    Chain-after lo rs after (Chain-lower (r.base + r.size) lo (rs ++ after) (omega arith) c)

Chain-without :
    (lo : ℕ) (before inside after : List Region)
    → Chain lo (before ++ (inside ++ after))
    → Chain lo (before ++ after)
Chain-without lo [] inside after c = Chain-after lo inside after c
Chain-without lo (r ∷ before) inside after (p, q, s, c) =
    (p, q, s, Chain-without (r.base + r.size) before inside after c)

-- The answer for an address, taken away in the range.
abbrev pub cleared : ℕ → ℕ → ℕ → Option Attr → Option Attr
cleared base end a o = if leb base a && ltb a end then none else o

module _ (base end a : ℕ) where
  view-Behind :
      (xs : List Region) → All (Behind base end) xs → view xs a ≡ cleared base end a (view xs a)
  view-Behind [] h = ground arith
  view-Behind (r ∷ xs) (h, hs) = ground (arith, view-Behind xs hs)

  view-Inside :
      (xs after : List Region)
      → All (Inside base end) xs
      → All (Behind base end) after
      → view after a ≡ cleared base end a (view (xs ++ after) a)
  view-Inside [] after h hs = view-Behind after hs
  view-Inside (r ∷ xs) after (h, hi) hs = ground (arith, view-Inside xs after hi hs)

  view-cleared :
      (before inside after : List Region)
      → All (Before base end) before
      → All (Inside base end) inside
      → All (Behind base end) after
      → view (before ++ after) a ≡ cleared base end a (view (before ++ (inside ++ after)) a)
  view-cleared [] inside after hb hi hs = view-Inside inside after hi hs
  view-cleared (r ∷ before) inside after (h, hb) hi hs =
      ground (arith, view-cleared before inside after hb hi hs)

abbrev pub Removes : ℕ → ℕ → Memblock → Status × Memblock → Type 0
Removes base end m (err, m') =
    (err ≡ success)
    × Chain 0 m'.live
    × ((a : ℕ) → view m'.live a ≡ cleared base end a (view m.live a))

remove_none : (m : Memblock) → remove_loop 0 0 m ≡ ok m
unfolding remove_loop
remove_none m = refl

removed :
    (inside before after : List Region) (m : Memblock) (start stop : ℕ)
    → Marks before inside start stop
    → m.live ≡ before ++ (inside ++ after)
    → Returns (λ m'. m'.live ≡ before ++ after) (remove_loop start (stop - start) m)
removed [] before after m start stop (e, e') l = rw (e, e', remove_none m) (returns m l)
removed (r ∷ rs) before after m start stop (e, e') l =
    let n : stop - start ≡ length (r ∷ rs) = omega arith in
    rw (n, e) (remove_loop-live (length (r ∷ rs)) (r ∷ rs) before after m refl l)

-- In a good memory with two entries to spare, for a range that ends below 2^64, `memblock_remove`
-- returns success and leaves the regions in order and apart. No address of the range lies in a
-- region any more, and every other address keeps its node and flags.
pub memblock_remove-view :
    (base size : ℕ) (m : Memblock)
    → Good m
    → base + size < 2 ^ 64
    → 1 < length m.rest
    → Returns (Removes base (base + size) m) (memblock_remove base size m)
unfolding memblock_remove isolate_range
memblock_remove-view base zero m good fits room =
    rw (remove_none m) (returns (success, m) (refl, good.chain, λ a. ground arith))
memblock_remove-view base (suc size) m good fits room =
    let end = base + suc size in
    let some_size : (suc size == 0) ≡ false = ground arith in
    let enough : ltb (length m.live + length m.rest) (count m + 2) ≡ false = ground arith in
    let plain : add64 base (suc size) ≡ end = omega arith in
    let cut = isolate_loop-Apart base end m good (omega arith) room in
    let c = cut.holds in
    let t = cut.value in
    rw (some_size, enough, plain, cut.runs)
      (Returns-bind (Removes base end m) (λ m'. ok (success, m'))
        (removed c.inside c.before c.after t.memory t.start_range t.end_range c.marks c.cut)
        (λ m' l.
          returns (success, m')
            (
              refl,
              subst (Chain 0) (sym l)
                  (Chain-without 0 c.before c.inside c.after (subst (Chain 0) c.cut c.good.chain)),
              λ a.
                  ap (λ k. view k a) l
                  ∙ view-cleared base end a c.before c.inside c.after c.all_before c.all_inside
                      c.all_after
                  ∙ ap (λ k. cleared base end a (view k a)) (sym c.cut)
                  ∙ ap (cleared base end a) (c.same.map a),
            )))
