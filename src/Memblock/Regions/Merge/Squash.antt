-- ===== src/Memblock/Regions/Merge/Squash.antt =====
-- `merge_regions` of ukernel/memblock.c against a merge of neighbours on lists.
use cyanea.Prelude.{
  ℕ, zero, suc, ◌+◌, ◌-◌, ◌^◌, ◌<◌, ◌≡◌, ◌⊎◌, refl, sym, ap, ◌∙◌, inl, inr, ◌&&◌, List, [], ◌∷◌,
  ◌++◌, arith, append_assoc, Bool-cases, length, length-append, if◌then◌else◌, ◌==◌, Bool,
  get_elem?, add64, subst, Returns, returns, Returns-bind, Returns_mono,
}
use cyanea.Memblock.Regions.{Region, Memblock, joins, join_next, merge_loop, merge_regions}
use cyanea.Memblock.Shape.{Same-refl, Chain-append}
use cyanea.Memblock.Good.{Good, Alike}
use cyanea.Memblock.Regions.Merge.{
  at, entry_first, entry_second, stale-apart, Shorter, joined-Shorter, Alike-trans,
}

-- Whether the second region begins at the end of the first, with its node and flags.
abbrev pub goes_on : Region → Region → Bool
goes_on c d = c.base + c.size == d.base && (c.nid == d.nid && c.flags == d.flags)

-- The region `c` takes in those behind it that go on from it, and so does the next one.
unfoldable pub squash : Region → List Region → List Region
squash c [] = c ∷ []
squash c (d ∷ seg) =
    let taken = squash (record c { size = c.size + d.size }) seg in
    let kept = c ∷ squash d seg in if goes_on c d then taken else kept

joins-goes_on : (c d : Region) → c.base + c.size < 2 ^ 64 → joins c d ≡ goes_on c d
unfolding joins
joins-goes_on c d h =
    let end : add64 c.base c.size ≡ c.base + c.size = omega arith in rw end (ground arith)

-- The rounds of the loop: as many as there are regions to look at, or one more, which looks behind the
-- last region.
abbrev Rounds : ℕ → List Region → List Region → Memblock → Type 0
Rounds k seg post m =
    (k ≡ length seg) ⊎ ((length post ≡ 0) × (k ≡ suc (length seg)) × (0 < length m.rest))

abbrev Squashed : Memblock → List Region → Region → List Region → List Region → Memblock → Type 0
Squashed m pre c seg post m' = Alike m m' × (m'.live ≡ pre ++ (squash c seg ++ post))

-- A memory by its parts.
parts :
    (m : Memblock) (pre xs : List Region) (c : Region)
    → m.live ≡ pre ++ c ∷ xs
    → m ≡ at pre c xs m.rest m.size
parts m pre xs c l = λ i. record { live = l i; rest = m.rest; size = m.size }

-- The round behind the last region changes nothing.
last_round :
    (pre post rest : List Region) (c : Region) (m : Memblock)
    → m.live ≡ pre ++ c ∷ post
    → m.rest ≡ rest
    → Good m
    → length post ≡ 0
    → 0 < length rest
    → Returns (Squashed m pre c [] post) (merge_loop 1 (length pre) m)
unfolding merge_loop squash
last_round pre post [] c m l r g e room = absurd (omega arith)
last_round pre (p ∷ post) (s ∷ rest) c m l r g e room = absurd (omega arith)
last_round pre [] (s ∷ rest) c m l r g e room =
    let good : Good (at pre c [] (s ∷ rest) m.size) =
      subst Good (λ i. record { live = l i; rest = r i; size = m.size }) g in
    let next = entry_second m pre [] c l ∙ ap (λ xs. get_elem? xs 0) r in
    rw (merge_loop, entry_first m pre [] c l, next, stale-apart pre rest c s m.size good)
      (returns m (record { good = g; same = Same-refl m.live; room = refl }, l))

squash_loop :
    (k : ℕ) (seg pre post : List Region) (c : Region) (m : Memblock)
    → m.live ≡ pre ++ c ∷ (seg ++ post)
    → Good m
    → Rounds k seg post m
    → Returns (Squashed m pre c seg post) (merge_loop k (length pre) m)
unfolding merge_loop squash
squash_loop zero [] pre post c m l g n =
    returns m (record { good = g; same = Same-refl m.live; room = refl }, l)
squash_loop (suc k) [] pre post c m l g n =
    let one : suc k ≡ 1 = omega (arith, n) in
    rw one (last_round pre post m.rest c m l refl g (omega (arith, n)) (omega (arith, n)))
squash_loop zero (d ∷ seg) pre post c m l g n = absurd (omega (arith, n))
squash_loop (suc k) (d ∷ seg) pre post c m l g n =
    let em = parts m pre (d ∷ (seg ++ post)) c l in
    let good = subst Good em g in
    let chain = Chain-append 0 pre (c ∷ d ∷ (seg ++ post)) good.chain in
    let same = joins-goes_on c d chain.2 in
    rw
      (
        merge_loop,
        entry_first m pre (d ∷ (seg ++ post)) c l,
        entry_second m pre (d ∷ (seg ++ post)) c l,
      )
      (elim (Bool-cases (goes_on c d)) [
        | inl go ↦
            let whole = record c { size = c.size + d.size } in
            let sum : add64 c.size d.size ≡ c.size + d.size = ground (arith, chain, go) in
            let step =
              subst
                (λ x.
                  Returns
                    (λ m'.
                      Shorter x m'
                      × (m'.live ≡ pre ++ record c { size = add64 c.size d.size } ∷ (seg ++ post)))
                    (join_next (length pre) c d x))
                (sym em) (joined-Shorter pre (seg ++ post) m.rest c d m.size good (same ∙ go)) in
            rw (same, go)
              (Returns-bind (Squashed m pre c (d ∷ seg) post) (merge_loop k (length pre)) step
                (λ m' ((al, sh), l').
                  Returns_mono
                    (squash_loop k seg pre post whole m'
                      (l' ∙ ap (λ z. pre ++ record c { size = z } ∷ (seg ++ post)) sum) al.good
                      (rounds m' (omega (arith, al.room, sh))))
                    (λ m'' (al', l''). (Alike-trans al al', rw go l''))))
        | inr apart ↦
            let at_next : length (pre ++ c ∷ []) ≡ suc (length pre) =
              omega (arith, length-append pre (c ∷ [])) in
            rw (same, apart)
              (subst (λ i. Returns (Squashed m pre c (d ∷ seg) post) (merge_loop k i m)) at_next
                (Returns_mono
                  (squash_loop k seg (pre ++ c ∷ []) post d m
                    (l ∙ sym (append_assoc pre (c ∷ []) (d ∷ (seg ++ post)))) g (rounds m (λ h. h)))
                  (λ m' (al, l').
                    (al, rw apart (l' ∙ append_assoc pre (c ∷ []) (squash d seg ++ post))))))
      ])
  where
    rounds : (m' : Memblock) → (0 < length m.rest → 0 < length m'.rest) → Rounds k seg post m'
    rounds m' more = elim n [
      | inl e ↦ inl (omega arith)
      | inr (none_left, e, room) ↦ inr (none_left, omega arith, more room)
    ]

-- In a good memory, `merge_regions` returns for a range from `start` on that ends with the last of the
-- regions `seg`, or, where these are the last in use and another entry stands behind them, that has
-- `stop` one further. The regions from the one before `start` to the last of `seg` are merged: each
-- takes in those behind it that go on from it, with its node and flags. All others are kept, and so
-- are the invariant and the node and flags of every address.
pub merge_regions-squash :
    (start stop : ℕ) (pre seg post : List Region) (c : Region) (m : Memblock)
    → Good m
    → m.live ≡ pre ++ c ∷ (seg ++ post)
    → start - 1 ≡ length pre
    → (stop ≡ length pre + length seg)
      ⊎ ((length post ≡ 0) × (stop ≡ length pre + length seg + 1) × (0 < length m.rest))
    → Returns
        (λ m'. Alike m m' × (m'.live ≡ pre ++ (squash c seg ++ post)))
        (merge_regions start stop m)
unfolding merge_regions
merge_regions-squash start stop pre seg post c m g l first last =
    let rounds : Rounds (stop - length pre) seg post m = elim last [
      | inl e ↦ inl (omega arith)
      | inr (none_left, e, room) ↦ inr (none_left, omega arith, room)
    ] in
    rw first (squash_loop (stop - length pre) seg pre post c m l g rounds)
