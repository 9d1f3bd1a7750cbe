-- ===== src/Deflate/Code/Sorted.antt =====
-- The last loop of `huffman_tree` of efi-boot/deflate.c: the symbols, sorted by the lengths of their
-- codes.
use cyanea.Prelude.{
  ℕ, zero, suc, ◌+◌, ◌%◌, ◌^◌, ◌≤◌, ◌<◌, ◌≡◌, ◌≢◌, ◌⊎◌, refl, sym, ap, ◌∙◌, inl, inr, Bool-cases,
  List, [], ◌∷◌, All, some, ltb, ◌==◌, length, length-set, get_elem?, get_elem?-set_ne, set, take,
  if◌then◌else◌, Returns, returns, Returns_mono, arith, ltb→lt,
}
use cyanea.Deflate.Huffman.{place}
use cyanea.Deflate.Code.Counts.{entry, occurrences, at-entry, put-set, entry-set-cases}

-- For each length the places from `offs` on are kept for the symbols that are left: behind those of
-- the shorter lengths, and within the array.
pub record Apart (lengths offs sorted : List ℕ) : Type 0 where
  pub sized : length offs ≡ 16
  pub few : length sorted < 2 ^ 16
  pub inside : (l : ℕ) → 0 < l → l < 16 → entry offs l + occurrences l lengths ≤ length sorted
  pub ordered :
      (l m : ℕ) → 0 < l → l < m → m < 16 → entry offs l + occurrences l lengths ≤ entry offs m

-- A place that is kept for no length.
abbrev pub Outside : List ℕ → List ℕ → ℕ → Type 0
Outside lengths offs p =
    (l : ℕ) → 0 < l → l < 16 → (p < entry offs l) ⊎ (entry offs l + occurrences l lengths ≤ p)

pub record Placed (it : ℕ) (lengths offs sorted sorted' : List ℕ) : Type 0 where
  pub same_size : length sorted' ≡ length sorted
  pub symbols :
      (k l : ℕ)
      → get_elem? lengths k ≡ some l
      → 0 < l
      → get_elem? sorted' (entry offs l + occurrences l (take k lengths)) ≡ some (it + k)
  pub others : (p : ℕ) → Outside lengths offs p → get_elem? sorted' p ≡ get_elem? sorted p

get_elem?-set : (xs : List ℕ) (i v : ℕ) → i < length xs → get_elem? (set xs i v) i ≡ some v
get_elem?-set [] i v h = absurd (omega arith)
get_elem?-set (x ∷ xs) zero v h = refl
get_elem?-set (x ∷ xs) (suc i) v h = get_elem?-set xs i v (omega arith)

-- One symbol is placed.
module _ (x : ℕ) (lengths offs sorted : List ℕ) (pos : 0 < x) (small : x < 16)
    (a : Apart (x ∷ lengths) offs sorted) where
  abbrev next_offs : List ℕ
  next_offs = set offs x ((entry offs x + 1) % 2 ^ 16)

  next-offs : (l : ℕ) → entry next_offs l ≡ (if x == l then entry offs l + 1 else entry offs l)
  unfolding occurrences
  next-offs l =
      let s = a.sized in
      let i = a.inside x pos small in
      let f = a.few in
      ground (arith, entry-set-cases offs x l ((entry offs x + 1) % 2 ^ 16) (omega arith))

  same_end :
      (l : ℕ) (ys : List ℕ)
      → entry next_offs l + occurrences l ys ≡ entry offs l + occurrences l (x ∷ ys)
  unfolding occurrences
  same_end l ys = ground (arith, next-offs l)

  later : (l : ℕ) → entry offs l ≤ entry next_offs l
  later l = ground (arith, next-offs l)

  -- The place of the symbol is kept for no other one.
  own-Outside : Outside lengths next_offs (entry offs x)
  unfolding occurrences
  own-Outside l p h = elim (Bool-cases (x == l)) [
    | inl e ↦ inl (ground (arith, next-offs l))
    | inr e ↦ elim (Bool-cases (ltb l x)) [
      | inl less ↦ inr (omega (arith, same_end l lengths, a.ordered l x p (ltb→lt l x less) small))
      | inr more ↦
          let above : x < l = ground arith in
          let own : suc (occurrences x lengths) ≡ occurrences x (x ∷ lengths) = ground arith in
          inl (omega (arith, own, a.ordered x l pos above h, later l))
    ]
  ]

  -- A place that is kept for no symbol is kept for no symbol but the first.
  rest-Outside :
      (p : ℕ) → Outside (x ∷ lengths) offs p → (entry offs x ≢ p) × Outside lengths next_offs p
  unfolding occurrences
  rest-Outside p out =
      let own : suc (occurrences x lengths) ≡ occurrences x (x ∷ lengths) = ground arith in
      (
        (λ e. elim (out x pos small) [ inl l ↦ omega arith | inr l ↦ omega (arith, own) ]),
        (λ l q h. elim (out l q h) [
          | inl under ↦ inl (omega (arith, later l))
          | inr over ↦ inr (omega (arith, same_end l lengths))
        ]),
      )

  next-Apart : (sorted' : List ℕ) → length sorted' ≡ length sorted → Apart lengths next_offs sorted'
  next-Apart sorted' e = record {
    sized = length-set offs x ((entry offs x + 1) % 2 ^ 16) ∙ a.sized;
    few = let f = a.few in omega arith;
    inside = λ l p h. omega (arith, same_end l lengths, a.inside l p h, e);
    ordered = λ l m p h k. omega (arith, same_end l lengths, a.ordered l m p h k, later m);
  }

-- The first symbol and the others.
cons-symbols :
    (x it : ℕ) (lengths offs sorted : List ℕ)
    → ((l : ℕ) → x ≡ l → 0 < l → get_elem? sorted (entry offs l) ≡ some it)
    → ((k l : ℕ)
        → get_elem? lengths k ≡ some l
        → 0 < l
        → get_elem? sorted (entry offs l + occurrences l (x ∷ take k lengths)) ≡ some (it + 1 + k))
    → (k l : ℕ) → get_elem? (x ∷ lengths) k ≡ some l
    → 0 < l
    → get_elem? sorted (entry offs l + occurrences l (take k (x ∷ lengths))) ≡ some (it + k)
unfolding occurrences
cons-symbols x it lengths offs sorted first rest zero l e p =
    let here : entry offs l + 0 ≡ entry offs l = omega arith in
    ap (get_elem? sorted) here ∙ first l (ground arith) p ∙ ap some (omega arith)
cons-symbols x it lengths offs sorted first rest (suc k) l e p =
    rest k l e p ∙ ap some (omega arith)

pub place-Placed :
    (it : ℕ) (lengths offs sorted : List ℕ)
    → All (λ l. l < 16) lengths
    → it + length lengths < 2 ^ 16
    → Apart lengths offs sorted
    → Returns (Placed it lengths offs sorted) (place it lengths offs sorted)
unfolding place occurrences
place-Placed it [] offs sorted hs few a =
    returns sorted (record {
      same_size = refl;
      symbols = λ k l e. absurd (ground arith);
      others = λ p out. refl;
    })
place-Placed it (x ∷ lengths) offs sorted (h, hs) few a = elim (Bool-cases (x == 0)) [
  | inl e ↦
      let zero_is : x ≡ 0 = ground arith in
      let same : (l : ℕ) → 0 < l → occurrences l lengths ≡ occurrences l (x ∷ lengths) =
        λ l p. ground (arith, zero_is) in
      let b : Apart lengths offs sorted = record {
        sized = a.sized;
        few = a.few;
        inside = λ l p k. omega (arith, same l p, a.inside l p k);
        ordered = λ l m p q k. omega (arith, same l p, a.ordered l m p q k);
      } in
      rw (place, e)
        (Returns_mono (place-Placed (it + 1) lengths offs sorted hs (omega arith) b) (λ sorted' z.
          record {
            same_size = z.same_size;
            symbols =
                cons-symbols x it lengths offs sorted' (λ l q p. absurd (omega arith))
                  (λ k l q p.
                    let index : entry offs l + occurrences l (x ∷ take k lengths)
                        ≡ entry offs l + occurrences l (take k lengths) =
                      ground (arith, zero_is) in
                    ap (get_elem? sorted') index ∙ z.symbols k l q p);
            others = λ p out. z.others p (λ l q k. elim (out l q k) [
              | inl under ↦ inl under
              | inr over ↦ inr (omega (arith, same l q))
            ]);
          }))
  | inr e ↦
      let pos : 0 < x = ground arith in
      let o = entry offs x in
      let value : it % 2 ^ 16 ≡ it = omega arith in
      let size = length-set sorted o it in
      let own : suc (occurrences x lengths) ≡ occurrences x (x ∷ lengths) = ground arith in
      let there : o < length sorted = omega (arith, a.inside x pos h, own) in
      let in_offs : x < length offs = let s = a.sized in omega arith in
      let offs' = next_offs x lengths offs sorted pos h a in
      rw
        (
          place,
          e,
          at-entry offs x in_offs,
          value,
          put-set sorted o it there,
          put-set offs x ((o + 1) % 2 ^ 16) in_offs,
        )
        (Returns_mono
          (place-Placed (it + 1) lengths offs' (set sorted o it) hs (omega arith)
            (next-Apart x lengths offs sorted pos h a (set sorted o it) size))
          (λ sorted' z. record {
            same_size = z.same_size ∙ size;
            symbols =
                cons-symbols x it lengths offs sorted'
                  (λ l q p.
                    ap (λ t. get_elem? sorted' (entry offs t)) (sym q)
                    ∙ z.others o (own-Outside x lengths offs sorted pos h a)
                    ∙ get_elem?-set sorted o it there)
                  (λ k l q p.
                    ap (get_elem? sorted')
                      (sym (same_end x lengths offs sorted pos h a l (take k lengths)))
                    ∙ z.symbols k l q p);
            others = λ p out.
                let (ne, q) = rest-Outside x lengths offs sorted pos h a p out in
                z.others p q ∙ get_elem?-set_ne sorted o p it ne;
          }))
]
