-- ===== src/Ioremap/Free.antt =====
-- What `find_free_range` of arch/x86/ukernel/ioremap.c finds.
use cyanea.Prelude.{
  ℕ, zero, suc, ◌+◌, ◌-◌, ◌≤◌, ◌<◌, ◌≡◌, ◌⊎◌, inl, inr, refl, subst, sym, ap, ◌∙◌, ◌==◌, false, [],
  ◌∷◌, Option, none, some, ltb, leb, arith, length, get_elem?, set, Run, ok, fault, Bool-cases,
}
use cyanea.Ioremap.{total, Mapping, search, find_free_range}

-- The array has its size, and the runs that are marked are not empty, end within it and do not overlap:
-- no other run begins inside of one.
pub record Fits (mapping : Mapping) : Type 0 where
  pub sized : length mapping ≡ total
  pub inside : (i len : ℕ) → get_elem? mapping i ≡ some (some len) → (0 < len) × (i + len ≤ total)
  pub apart :
      (i len j : ℕ)
      → get_elem? mapping i ≡ some (some len)
      → i < j
      → j < i + len
      → get_elem? mapping j ≡ some none

-- The slots from `start` up to `end` are not marked, and every marked run ends before them or begins
-- behind them.
pub record Free (mapping : Mapping) (start end : ℕ) : Type 0 where
  pub unmarked : (j : ℕ) → start ≤ j → j < end → get_elem? mapping j ≡ some none
  pub clear : (i len : ℕ) → get_elem? mapping i ≡ some (some len) → (i + len ≤ start) ⊎ (end ≤ i)

-- What the search knows at the slot `i`: nothing is marked from `start` on, and the runs that begin
-- before `i` end by `start`.
record Seen (mapping : Mapping) (start i : ℕ) : Type 0 where
  unmarked : (j : ℕ) → start ≤ j → j < i → get_elem? mapping j ≡ some none
  ended : (k len : ℕ) → get_elem? mapping k ≡ some (some len) → k < i → k + len ≤ start

-- Every marked run leaves the last `nrpages` slots of the array alone.
pub record Room (mapping : Mapping) (nrpages : ℕ) : Type 0 where
  pub most : nrpages ≤ total
  pub before : (i len : ℕ) → get_elem? mapping i ≡ some (some len) → i + len + nrpages ≤ total

-- The search reads outside the array, without room at its end, or it finds slots that are not marked.
abbrev pub Outcome : Mapping → ℕ → Run (Option ℕ) → Type 0
Outcome mapping nrpages r =
    ((r ≡ fault) × (¬ (Room mapping nrpages)))
    ⊎ ((start : ℕ) × (r ≡ ok (some start))
        × (start + nrpages ≤ total)
        × Free mapping start (start + nrpages))

get_elem?_lt : (xs : Mapping) (i : ℕ) (v : Option ℕ) → get_elem? xs i ≡ some v → i < length xs
get_elem?_lt [] i v h = ground arith
get_elem?_lt (x ∷ xs) zero v h = omega arith
get_elem?_lt (x ∷ xs) (suc i) v h = omega (arith, get_elem?_lt xs i v h)

get_elem?-none : (xs : Mapping) (i : ℕ) → get_elem? xs i ≡ none → length xs ≤ i
get_elem?-none [] i h = omega arith
get_elem?-none (x ∷ xs) zero h = ground arith
get_elem?-none (x ∷ xs) (suc i) h = omega (arith, get_elem?-none xs i h)

slot-cases :
    (o : Option (Option ℕ)) → (o ≡ none) ⊎ ((o ≡ some none) ⊎ ((len : ℕ) × (o ≡ some (some len))))
slot-cases none = inl refl
slot-cases (some none) = inr (inl refl)
slot-cases (some (some len)) = inr (inr (len, refl))

unmarked≢marked : (len : ℕ) → some none ≡ some (some len) → ⊥
unmarked≢marked len e =
    subst
      (λ o. elim o as (λ x. Type 0) [
        | none ↦ Unit
        | some x ↦ elim x as (λ y. Type 0) [ none ↦ Unit | some v ↦ ⊥ ]
      ])
      e tt

pub length_unique : (a b : ℕ) → some (some a) ≡ some (some b) → a ≡ b
length_unique a b e = ap (λ o. elim o [ none ↦ a | some x ↦ elim x [ none ↦ a | some v ↦ v ] ]) e

-- The slot `i` is not marked.
Seen-unmarked :
    (mapping : Mapping) (start i : ℕ)
    → Seen mapping start i
    → get_elem? mapping i ≡ some none
    → Seen mapping start (i + 1)
Seen-unmarked mapping start i seen e = record {
  unmarked = λ j l u. elim (Bool-cases (ltb j i)) [
    | inl before ↦ seen.unmarked j l (ground arith)
    | inr at ↦
        let same : i ≡ j = ground arith in subst (λ t. get_elem? mapping t ≡ some none) same e
  ];
  ended = λ k len m u. elim (Bool-cases (ltb k i)) [
    | inl before ↦ seen.ended k len m (ground arith)
    | inr at ↦
        let same : i ≡ k = ground arith in
        absurd (unmarked≢marked len (sym e ∙ ap (get_elem? mapping) same ∙ m))
  ];
}

-- A run begins at the slot `i`, and the search goes on behind it.
Seen-marked :
    (mapping : Mapping) (start i len : ℕ)
    → Fits mapping
    → Seen mapping start i
    → start ≤ i
    → get_elem? mapping i ≡ some (some len)
    → Seen mapping (i + len) (i + len)
Seen-marked mapping start i len fits seen at e = record {
  unmarked = λ j l u. absurd (omega arith);
  ended = λ k len' m u. elim (Bool-cases (ltb k i)) [
    | inl before ↦ let end = seen.ended k len' m (ground arith) in omega arith
    | inr later ↦ elim (Bool-cases (k == i)) [
      | inl same ↦
          let here : i ≡ k = ground arith in
          let own = length_unique len len' (sym e ∙ ap (get_elem? mapping) here ∙ m) in omega arith
      | inr inside ↦
          absurd
            (unmarked≢marked len' (sym (fits.apart i len k e (ground arith) (omega arith)) ∙ m))
    ]
  ];
}

Seen-Free : (mapping : Mapping) (start end : ℕ) → Seen mapping start end → Free mapping start end
Seen-Free mapping start end seen = record {
  unmarked = seen.unmarked;
  clear = λ i len m. elim (Bool-cases (ltb i end)) [
    | inl before ↦ inl (seen.ended i len m (ground arith))
    | inr behind ↦ inr (ground arith)
  ];
}

Seen-nothing : (mapping : Mapping) → Seen mapping 0 0
Seen-nothing mapping = record {
  unmarked = λ j a b. absurd (omega arith);
  ended = λ k len m u. absurd (omega arith);
}

search-Outcome :
    (mapping : Mapping) (nrpages fuel n i start : ℕ)
    → Fits mapping
    → i ≡ start + n
    → i ≤ total
    → total - i + 1 < fuel
    → n ≤ nrpages
    → Seen mapping start i
    → (Room mapping nrpages → start + nrpages ≤ total)
    → Outcome mapping nrpages (search mapping nrpages fuel n i start)
unfolding search
search-Outcome mapping nrpages zero n i start fits at most l small seen reach = absurd (omega arith)
search-Outcome mapping nrpages (suc fuel) n i start fits at most l small seen reach =
    elim (Bool-cases (leb nrpages n)) [
      | inl enough ↦
          let all : i ≡ start + nrpages = ground arith in
          rw (search, enough)
            (inr (
              start,
              refl,
              omega arith,
              Seen-Free mapping start (start + nrpages) (subst (Seen mapping start) all seen),
            ))
      | inr more ↦
          let inside : ltb total i ≡ false = ground arith in
          elim (slot-cases (get_elem? mapping i)) [
            | inl e ↦
                let behind = get_elem?-none mapping i e in
                let sized = fits.sized in
                let short : n < nrpages = ground arith in
                rw (search, more, inside, e)
                  (inl (refl, (λ room. let end = reach room in absurd (omega arith))))
            | inr (inl e) ↦
                let lt = get_elem?_lt mapping i none e in
                let sized = fits.sized in
                rw (search, more, inside, e)
                  (search-Outcome mapping nrpages fuel (n + 1) (i + 1) start fits (omega arith)
                    (omega arith) (omega arith) (ground arith)
                    (Seen-unmarked mapping start i seen e) reach)
            | inr (inr (len, e)) ↦
                let (some_slots, end) = fits.inside i len e in
                rw (search, more, inside, e)
                  (search-Outcome mapping nrpages fuel 0 (i + len) (i + len) fits (omega arith) end
                    (omega arith) (omega arith)
                    (Seen-marked mapping start i len fits seen (omega arith) e)
                    (λ room. room.before i len e))
          ]
    ]

-- In an array in which every marked run is not empty, ends within the array and has no other run that
-- begins inside of it, the search for free slots never returns -1: either it gives slots within the
-- array, of which none is marked and none lies in a marked run, and marks the first of them with
-- their number, or it reads outside the array, and that only where some marked run reaches into the
-- last `nrpages` slots or there are not so many slots at all.
pub find_free_range-Free :
    (nrpages : ℕ) (mapping : Mapping)
    → Fits mapping
    → ((find_free_range nrpages mapping ≡ fault) × (¬ (Room mapping nrpages)))
      ⊎ ((start : ℕ) × (find_free_range nrpages mapping
            ≡ ok (some start, set mapping start (some nrpages)))
          × (start + nrpages ≤ total)
          × Free mapping start (start + nrpages))
unfolding find_free_range
find_free_range-Free nrpages mapping fits =
    elim (search-Outcome mapping nrpages (total + 2) 0 0 0 fits (omega arith) (omega arith)
      (omega arith) (omega arith) (Seen-nothing mapping)
      (λ room. let m = room.most in omega arith)) [
        | inl (e, no_room) ↦ inl (rw e refl, no_room)
        | inr (start, e, end, free) ↦ inr (start, rw e refl, end, free)
      ]
