-- ===== src/Deflate/Progress/Trees.antt =====
-- Building the trees of efi-boot/deflate.c takes bits of the input and no end of time.
use cyanea.Prelude.{
  ℕ, zero, suc, ◌+◌, ◌-◌, ◌%◌, ◌^◌, ◌≤◌, ◌<◌, ◌≡◌, refl, inl, inr, Bool-cases, true, List, [], ◌∷◌,
  ltb, ◌==◌, length, take, drop, set, replicate, Run, ok, Ends, Ends-bind, Ends-mono, ◌>>=◌, arith,
  ltb→lt,
}
use cyanea.Deflate.State.{
  max_bits, max_symbols, max_distance, Tree, Inflate, is_none, get_bits, get_extra_bits,
}
use cyanea.Deflate.Huffman.{
  at, put, count_lengths, offsets, place, huffman_tree, decode_symbol, code_order,
  read_code_lengths, write_lengths, Repeat, repeat_of, read_lengths, build_trees, dynamic_lengths,
  huffman_dynamic_tree,
}
use cyanea.Deflate.Block.{bits_left}
use cyanea.Deflate.Progress.{
  Takes, Reads, Takes-trans, Takes-weaken, Reads-trans, get_bits-Reads, get_extra_bits-Reads,
  at-Ends, decode_symbol-Reads,
}

-- A run that does not run out of fuel.
abbrev Stops : {A : Type 0} → Run A → Type 0
Stops r = Ends (λ a. Unit) r

put-Stops : (xs : List ℕ) (i v : ℕ) → Stops (put xs i v)
unfolding put
put-Stops xs i v = elim (Bool-cases (ltb i (length xs))) [
  | inl e ↦ rw (Ends, e) tt
  | inr e ↦ rw (Ends, e) tt
]

count_lengths-Stops : (lengths counts : List ℕ) → Stops (count_lengths lengths counts)
unfolding count_lengths
count_lengths-Stops [] counts = tt
count_lengths-Stops (l ∷ lengths) counts =
    Ends-bind (λ r. Unit) (at counts l) _ (at-Ends counts l)
      (λ n u.
        Ends-bind (λ r. Unit) (put counts l ((n + 1) % 2 ^ 16)) _
          (put-Stops counts l ((n + 1) % 2 ^ 16))
          (λ counts' w. count_lengths-Stops lengths counts'))

place-Stops : (it : ℕ) (lengths offs sorted : List ℕ) → Stops (place it lengths offs sorted)
unfolding place
place-Stops it [] offs sorted = tt
place-Stops it (l ∷ lengths) offs sorted = elim (Bool-cases (l == 0)) [
  | inl e ↦ rw (place, e) (place-Stops (it + 1) lengths offs sorted)
  | inr e ↦
      rw (place, e)
        (Ends-bind (λ r. Unit) (at offs l) _ (at-Ends offs l)
          (λ o u.
            Ends-bind (λ r. Unit) (put sorted o (it % 2 ^ 16)) _ (put-Stops sorted o (it % 2 ^ 16))
              (λ sorted' w.
                Ends-bind (λ r. Unit) (put offs l ((o + 1) % 2 ^ 16)) _
                  (put-Stops offs l ((o + 1) % 2 ^ 16))
                  (λ offs' z. place-Stops (it + 1) lengths offs' sorted'))))
]

huffman_tree-Stops : (lengths : List ℕ) (tree : Tree) → Stops (huffman_tree lengths tree)
unfolding huffman_tree
huffman_tree-Stops lengths tree =
    Ends-bind (λ r. Unit) (count_lengths lengths (replicate max_bits 0)) _
      (count_lengths-Stops lengths (replicate max_bits 0))
      (λ counts u.
        Ends-bind (λ r. Unit) (place 0 lengths (offsets 0 (set counts 0 0)) tree.sorted_symbols) _
          (place-Stops 0 lengths (offsets 0 (set counts 0 0)) tree.sorted_symbols) (λ sorted w. tt))

write_lengths-Stops :
    (n it symbol : ℕ) (lengths : List ℕ) → Stops (write_lengths n it symbol lengths)
unfolding write_lengths
write_lengths-Stops zero it symbol lengths = tt
write_lengths-Stops (suc n) it symbol lengths =
    Ends-bind (λ r. Unit) (put lengths it (symbol % 256)) _ (put-Stops lengths it (symbol % 256))
      (λ lengths' u. write_lengths-Stops n (it + 1) symbol lengths')

-- Nothing is taken.
same : (d : Inflate) → Reads 0 d d
same d fine = record { before = fine; fewer = omega arith; same_out = refl; same_size = refl }

-- What is read behind `d'`, as it is seen from `d`.
later_pair :
    {A : Type 0} {k : ℕ} {d d' : Inflate} (run : Run (A × Inflate))
    → Reads k d d'
    → Ends (λ (r : A × Inflate). Reads 0 d' r.1) run
    → Ends (λ (r : A × Inflate). Reads 0 d r.1) run
later_pair {A = A} {d = d} run g h =
    Ends-mono (λ (r : A × Inflate). Reads 0 d r.1) run h
      (λ r more fine. Takes-weaken (omega arith) (Reads-trans g more fine))

pub later :
    {k : ℕ} {d d' : Inflate} (run : Run Inflate)
    → Reads k d d'
    → Ends (Reads 0 d') run
    → Ends (Reads 0 d) run
later {d = d} run g h =
    Ends-mono (Reads 0 d) run h
      (λ r more fine. Takes-weaken (omega arith) (Reads-trans g more fine))

read_code_lengths-Reads :
    (order lengths : List ℕ) (d : Inflate)
    → Ends (λ (r : List ℕ × Inflate). Reads 0 d r.1) (read_code_lengths order lengths d)
unfolding read_code_lengths
read_code_lengths-Reads [] lengths d = same d
read_code_lengths-Reads (i ∷ order) lengths d =
    Ends-bind (λ (r : List ℕ × Inflate). Reads 0 d r.1) (get_bits 3 d) _ (get_bits-Reads 3 d)
      (λ r g.
        Ends-bind (λ (t : List ℕ × Inflate). Reads 0 d t.1) (put lengths i (r.0 % 256)) _
          (put-Stops lengths i (r.0 % 256))
          (λ lengths' u.
            later_pair (read_code_lengths order lengths' r.1) g.0
              (read_code_lengths-Reads order lengths' r.1)))

-- A symbol of the lengths repeats a length at least once.
abbrev Repeats : Inflate → Repeat → Type 0
Repeats d r = is_none r.state.error ≡ true → Takes 0 d r.state × (0 < r.times)

repeated :
    (n base symbol : ℕ) (d : Inflate)
    → 0 < base
    → base + 2 ^ n ≤ 2 ^ 32
    → Ends (Repeats d) (
        get_extra_bits n base d >>= λ (times, d').
        ok (record { symbol = symbol; times = times; state = d' }))
repeated n base symbol d pos small =
    Ends-bind (Repeats d) (get_extra_bits n base d) _ (get_extra_bits-Reads n base d)
      (λ r g fine. (g.0 fine, omega (arith, g.1 small)))

repeat_of-Repeats :
    (symbol it : ℕ) (lengths : List ℕ) (d : Inflate)
    → Ends (Repeats d) (repeat_of symbol it lengths d)
unfolding repeat_of
repeat_of-Repeats symbol it lengths d = elim (Bool-cases (symbol == 16)) [
  | inl e ↦ elim (Bool-cases (it == 0)) [
    | inl z ↦ rw (e, z) (λ fine. absurd (ground arith))
    | inr z ↦
        rw (e, z)
          (Ends-bind (Repeats d) (at lengths (it - 1)) _ (at-Ends lengths (it - 1))
            (λ last u. repeated 2 3 last d (omega arith) (omega arith)))
  ]
  | inr e ↦ elim (Bool-cases (symbol == 17)) [
    | inl f ↦ rw (e, f) (repeated 3 3 0 d (omega arith) (omega arith))
    | inr f ↦ elim (Bool-cases (symbol == 18)) [
      | inl g ↦ rw (e, f, g) (repeated 7 11 0 d (omega arith) (omega arith))
      | inr g ↦ rw (e, f, g) (λ fine. (same d fine, omega arith))
    ]
  ]
]

-- A round for each length that is left, and one more, are enough.
read_lengths-Reads :
    (fuel total it : ℕ) (lengths : List ℕ) (d : Inflate)
    → total - it < fuel
    → Ends (λ (r : List ℕ × Inflate). Reads 0 d r.1) (read_lengths fuel total it lengths d)
unfolding read_lengths
read_lengths-Reads zero total it lengths d h = absurd (omega arith)
read_lengths-Reads (suc fuel) total it lengths d h =
    let Q : List ℕ × Inflate → Type 0 = λ r. Reads 0 d r.1 in
    elim (Bool-cases (ltb it total)) [
      | inr e ↦ rw (read_lengths, e) (same d)
      | inl e ↦
          rw (read_lengths, e)
            (Ends-bind Q (decode_symbol d.ll d) _ (decode_symbol-Reads d.ll d) (λ r g.
              elim (Bool-cases (is_none r.1.error)) [
                | inr f ↦ rw f (λ fine. absurd (ground arith))
                | inl f ↦ rw f (
                    Ends-bind Q (repeat_of r.0 it lengths r.1) _
                      (repeat_of-Repeats r.0 it lengths r.1)
                      (λ q k. elim (Bool-cases (is_none q.state.error)) [
                        | inr z ↦ rw z (λ fine. absurd (ground arith))
                        | inl z ↦
                            let (taken, more) = k z in
                            rw z (
                              Ends-bind Q (write_lengths q.times it q.symbol lengths) _
                                (write_lengths-Stops q.times it q.symbol lengths)
                                (λ lengths' u.
                                  later_pair
                                    (read_lengths fuel total (it + q.times) lengths' q.state)
                                    (λ fine. Takes-trans (g f) (k fine).0)
                                    (read_lengths-Reads fuel total (it + q.times) lengths' q.state
                                      (let n : it < total = ltb→lt it total e in omega arith))))
                      ]))
              ]))
    ]

build_trees-Reads :
    (hlit hdist : ℕ) (lengths : List ℕ) (d : Inflate)
    → Ends (Reads 0 d) (build_trees hlit hdist lengths d)
unfolding build_trees bits_left
build_trees-Reads hlit hdist lengths d =
    Ends-bind (Reads 0 d) (huffman_tree (take hlit lengths) d.ll) _
      (huffman_tree-Stops (take hlit lengths) d.ll)
      (λ ll u.
        Ends-bind (Reads 0 d) (huffman_tree (take hdist (drop hlit lengths)) d.distance) _
          (huffman_tree-Stops (take hdist (drop hlit lengths)) d.distance)
          (λ distance w fine. record {
            before = fine;
            fewer = omega arith;
            same_out = refl;
            same_size = refl;
          }))

dynamic_lengths-Reads :
    (hlit hdist hclen : ℕ) (d : Inflate) → Ends (Reads 0 d) (dynamic_lengths hlit hdist hclen d)
unfolding dynamic_lengths bits_left
dynamic_lengths-Reads hlit hdist hclen d =
    let order = take hclen code_order in
    let none_yet = replicate (max_symbols + max_distance) 0 in
    Ends-bind (Reads 0 d) (read_code_lengths order none_yet d) _
      (read_code_lengths-Reads order none_yet d)
      (λ r g. elim (Bool-cases (is_none r.1.error)) [
        | inr e ↦ rw e g
        | inl e ↦ rw e (
            Ends-bind (Reads 0 d) (huffman_tree (take 19 r.0) r.1.ll) _
              (huffman_tree-Stops (take 19 r.0) r.1.ll)
              (λ ll u.
                let d' = record r.1 { ll = ll } in
                let total = hlit + hdist in
                Ends-bind (Reads 0 d) (read_lengths (total + 1) total 0 r.0 d') _
                  (read_lengths-Reads (total + 1) total 0 r.0 d' (omega arith))
                  (λ q k. elim (Bool-cases (is_none q.1.error)) [
                    | inr f ↦ rw f (λ fine. absurd (ground arith))
                    | inl f ↦
                        let taken : Takes 0 d q.1 = Takes-trans (g e) (
                          let t = k f in
                          record {
                            before = e;
                            fewer = t.fewer;
                            same_out = t.same_out;
                            same_size = t.same_size;
                          }) in
                        rw f (
                          later (build_trees hlit hdist q.0 q.1) (λ fine. taken)
                            (build_trees-Reads hlit hdist q.0 q.1))
                  ])))
      ])

pub huffman_dynamic_tree-Reads : (d : Inflate) → Ends (Reads 0 d) (huffman_dynamic_tree d)
unfolding huffman_dynamic_tree
huffman_dynamic_tree-Reads d =
    Ends-bind (Reads 0 d) (get_extra_bits 5 257 d) _ (get_extra_bits-Reads 5 257 d) (λ hlit g.
      Ends-bind (Reads 0 d) (get_extra_bits 5 1 hlit.1) _ (get_extra_bits-Reads 5 1 hlit.1)
        (λ hdist h.
          Ends-bind (Reads 0 d) (get_extra_bits 4 4 hdist.1) _ (get_extra_bits-Reads 4 4 hdist.1)
            (λ hclen k.
              let all : Reads 0 d hclen.1 = Reads-trans g.0 (Reads-trans h.0 k.0) in
              elim (Bool-cases (is_none hclen.1.error)) [
                | inr e ↦ rw e all
                | inl e ↦ rw e (
                    later (dynamic_lengths hlit.0 hdist.0 hclen.0 hclen.1) all
                      (dynamic_lengths-Reads hlit.0 hdist.0 hclen.0 hclen.1))
              ])))
