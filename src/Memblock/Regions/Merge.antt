-- ===== src/Memblock/Regions/Merge.antt =====
-- `merge_regions` of ukernel/memblock.c: it returns, and it changes no address's node or flags.
pub mod Squash
use cyanea.Prelude.{
  ℕ, zero, suc, ◌+◌, ◌-◌, ◌≤◌, ◌<◌, ◌≡◌, refl, sym, ap, ◌∙◌, inl, inr, true, false, List, [], ◌∷◌,
  ◌++◌, some, arith, append_assoc, Bool-cases, length, get_elem?, ltb, lt→ltb, remove_at_next,
  get_last-append, length-append, All, split_at, get_elem?_at, get_elem?-append, set_at_end, ok,
  subst, fault, Returns, returns, Returns-bind, Returns_mono, add64,
}
use native.Mathlib.Decide.{dec_lt}
use cyanea.Memblock.Regions.{
  Region, Memblock, count, entry, joins, close_gap, or_fault, join_next, merge_loop, merge_regions,
}
use cyanea.Memblock.Shape.{
  Chain, top, Same, Same-refl, Same-trans, Same-append, Chain-append, top-append, last_entry,
}
use cyanea.Memblock.Good.{Good, Alike, Below}

-- The region that `curr->size += next->size` makes.
abbrev grown : Region → Region → Region
grown c d = record c { size = add64 c.size d.size }

-- Two regions that join make one that stands for the same map.
Same-join :
    (c d : Region) (post : List Region)
    → c.base + c.size ≡ d.base
    → c.nid ≡ d.nid
    → c.flags ≡ d.flags
    → d.base + d.size < 18446744073709551616
    → Same (c ∷ d ∷ post) (grown c d ∷ post)
Same-join c d post e n f h =
    let far : c.base + add64 c.size d.size ≡ d.base + d.size = omega arith in
    record {
      chain = λ lo k. (k.0, omega arith, omega arith, subst (λ t. Chain t post) (sym far) k.3.3);
      ends = λ lo. ap (λ t. top t post) far;
      bytes = omega arith;
      map = λ a. ground arith;
    }

-- Where the entry at the end of `pre` and the one behind it are found.
entry_first :
    (m : Memblock) (pre post : List Region) (c : Region)
    → m.live ≡ pre ++ c ∷ post
    → entry m (length pre) ≡ some c
entry_first m pre post c e =
    rw (e, append_assoc pre (c ∷ post) m.rest) (get_elem?_at pre (c ∷ post ++ m.rest))

entry_second :
    (m : Memblock) (pre post : List Region) (c : Region)
    → m.live ≡ pre ++ c ∷ post
    → entry m (suc (length pre)) ≡ get_elem? (post ++ m.rest) 0
entry_second m pre post c e =
    let one : suc (length pre) ≡ length pre + 1 = omega arith in
    rw (e, append_assoc pre (c ∷ post) m.rest, one) (get_elem?-append pre (c ∷ post ++ m.rest) 1)

abbrev joined : List Region → Region → Region → List Region → List Region → Region → ℕ → Memblock
joined pre c d post rest l size = record {
  live = pre ++ grown c d ∷ post;
  rest = l ∷ rest;
  size = size;
}

abbrev parted : List Region → Region → Region → List Region → List Region → ℕ → Memblock
parted pre c d post rest size = record { live = pre ++ c ∷ d ∷ post; rest = rest; size = size }

-- What a round that joins two regions leaves.
join_next_lem :
    (pre post rest : List Region) (c d l : Region) (size : ℕ)
    → get_elem? (d ∷ post) (length post) ≡ some l
    → join_next (length pre) c d (parted pre c d post rest size)
      ≡ ok (joined pre c d post rest l size)
unfolding join_next close_gap or_fault
join_next_lem pre post rest c d l size e =
    let inside : ltb (suc (length pre)) (length (pre ++ c ∷ d ∷ post)) ≡ true =
      lt→ltb _ _ (omega (arith, length-append pre (c ∷ d ∷ post))) in
    let found : get_elem? (pre ++ grown c d ∷ d ∷ post) (length (pre ++ grown c d ∷ d ∷ post) - 1)
        ≡ some l =
      get_last-append pre (d ∷ post) (grown c d) ∙ e in
    rw (
      inside,
      set_at_end pre (d ∷ post) c (grown c d),
      close_gap,
      found,
      set_at_end pre (d ∷ post) c (grown c d),
      remove_at_next pre post (grown c d) d,
    )

joins_parts :
    (c d : Region)
    → joins c d ≡ true
    → (add64 c.base c.size ≡ d.base) × (c.nid ≡ d.nid) × (c.flags ≡ d.flags)
unfolding joins
joins_parts c d j = ground arith

abbrev Shorter : Memblock → Memblock → Type 0
Shorter m m' = Alike m m' × (suc (count m') ≡ count m)

joined-Shorter :
    (pre post rest : List Region) (c d : Region) (size : ℕ)
    → Good (parted pre c d post rest size)
    → joins c d ≡ true
    → Returns
        (λ m'. Shorter (parted pre c d post rest size) m' × (m'.live ≡ pre ++ grown c d ∷ post))
        (join_next (length pre) c d (parted pre c d post rest size))
joined-Shorter pre post rest c d size g j =
    let k = Chain-append 0 pre (c ∷ d ∷ post) g.chain in
    let (l, found, at, some_size) = last_entry (c.base + c.size) d post (k.3) in
    let (e, n, f) = joins_parts c d j in
    let s = Same-append pre (Same-join c d post (omega arith) n f (k.3.2)) in
    let ends = top-append 0 pre (c ∷ d ∷ post) in
    record {
      value = joined pre c d post rest l size;
      runs = join_next_lem pre post rest c d l size found;
      holds = (
        (
          record {
            good = record {
              chain = s.chain 0 g.chain;
              counted = g.counted ∙ sym s.bytes;
              stale =
                  subst (λ t. All (Below t) (l ∷ rest)) (sym (s.ends 0))
                    (omega (arith, ends), g.stale);
            };
            same = s;
            room =
                omega
                  (arith, length-append pre (grown c d ∷ post), length-append pre (c ∷ d ∷ post));
          },
          omega (arith, length-append pre (grown c d ∷ post), length-append pre (c ∷ d ∷ post)),
        ),
        refl,
      );
    }

Alike-trans : {a b c : Memblock} → Alike a b → Alike b c → Alike a c
Alike-trans p q = record { good = q.good; same = Same-trans p.same q.same; room = q.room ∙ p.room }

-- What the loop promises for `k` rounds.
abbrev Merges : ℕ → Type 0
Merges k =
    (i : ℕ) (m : Memblock)
    → Good m
    → i + k ≤ count m
    → i + k < count m + length m.rest
    → Returns (Alike m) (merge_loop k i m)

abbrev pub at : List Region → Region → List Region → List Region → ℕ → Memblock
at pre c post rest size = record { live = pre ++ c ∷ post; rest = rest; size = size }

-- The last region does not go on in an entry that is no longer in use.
stale-apart :
    (pre rest : List Region) (c s : Region) (size : ℕ)
    → Good (at pre c [] (s ∷ rest) size)
    → joins c s ≡ false
unfolding joins
stale-apart pre rest c s size g =
    let k = Chain-append 0 pre (c ∷ []) g.chain in
    ground (arith, k.0, k.1, k.2, g.stale.0, top-append 0 pre (c ∷ []))

-- One round of the loop, with a region at `i` and `k` rounds to follow.
merge_round :
    (k : ℕ) (pre post rest : List Region) (c : Region) (size : ℕ)
    → Merges k
    → Good (at pre c post rest size)
    → length pre + suc k ≤ length (pre ++ c ∷ post)
    → length pre + suc k < length (pre ++ c ∷ post) + length rest
    → Returns
        (Alike (at pre c post rest size))
        (merge_loop (suc k) (length pre) (at pre c post rest size))
unfolding merge_loop
merge_round k pre [] [] c size ih g h r = absurd (omega (arith, length-append pre (c ∷ [])))
merge_round k pre [] (s ∷ rest) c size ih g h r =
    let m = at pre c [] (s ∷ rest) size in
    rw
      (
        merge_loop,
        entry_first m pre [] c refl,
        entry_second m pre [] c refl,
        stale-apart pre rest c s size g,
      )
      (ih (suc (length pre)) m g (omega arith) (omega arith))
merge_round k pre (d ∷ post) rest c size ih g h r =
    let m = at pre c (d ∷ post) rest size in
    rw (merge_loop, entry_first m pre (d ∷ post) c refl, entry_second m pre (d ∷ post) c refl)
      (elim (Bool-cases (joins c d)) [
        | inl j ↦ rw j (
            Returns-bind (Alike m) (merge_loop k (length pre))
              (joined-Shorter pre post rest c d size g j)
              (λ m' ((al, sh), l).
                Returns_mono (ih (length pre) m' al.good (omega arith) (omega (arith, al.room)))
                  (λ m'' al'. Alike-trans al al')))
        | inr j ↦ rw j (ih (suc (length pre)) m g (omega arith) (omega arith))
      ])

merge_loop-Alike : (k : ℕ) → Merges k
unfolding merge_loop
merge_loop-Alike zero i m g h r =
    returns m (record { good = g; same = Same-refl m.live; room = refl })
merge_loop-Alike (suc k) i m g h r =
    let (pre, c, post, e, l) = split_at i m.live (omega arith) in
    let m' = at pre c post m.rest m.size in
    let em : m ≡ m' = λ j. record { live = e j; rest = m.rest; size = m.size } in
    subst (λ x. Returns (Alike x) (merge_loop (suc k) i x)) (sym em)
      (subst (λ n. Returns (Alike m') (merge_loop (suc k) n m')) l
        (merge_round k pre post m.rest c m.size (merge_loop-Alike k) (subst Good em g)
          (rw (l, ← e) h) (rw (l, ← e) r)))

-- In a good memory, where the range ends within the regions in use and before the end of the array,
-- `merge_regions` returns, keeps the invariant and changes no address's node or flags.
pub merge_regions-Alike :
    (start stop : ℕ) (m : Memblock)
    → Good m
    → stop ≤ count m
    → stop < count m + length m.rest
    → Returns (Alike m) (merge_regions start stop m)
unfolding merge_regions merge_loop
merge_regions-Alike start stop m g h r = elim (dec_lt (start - 1) stop) [
  | yes p ↦ merge_loop-Alike (stop - (start - 1)) (start - 1) m g (omega arith) (omega arith)
  | no p ↦
      let none_left : stop - (start - 1) ≡ 0 = omega arith in
      rw none_left (returns m (record { good = g; same = Same-refl m.live; room = refl }))
]
