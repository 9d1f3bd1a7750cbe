-- ===== src/Deflate/Progress/Blocks.antt =====
-- `deflate_buffer` of efi-boot/deflate.c comes to an end, and counts what it writes.
use cyanea.Prelude.{
  ℕ, zero, suc, ◌+◌, ◌-◌, ◌*◌, ◌≤◌, ◌<◌, ◌≡◌, ◌⊎◌, refl, sym, ap, ◌∙◌, inl, inr, Bool-cases, true,
  false, List, [], ◌∷◌, ◌++◌, length-append, length-take, length-drop, ltb, ◌==◌, length, take,
  drop, Ends, Ends-bind, Ends-mono, Ends-Returns, Returns, fault, ◌≢◌, arith,
}
use cyanea.Deflate.State.{Tree, Inflate, is_none, get_bits, get_extra_bits}
use cyanea.Deflate.Huffman.{at, decode_symbol, huffman_fixed_tree, huffman_dynamic_tree}
use cyanea.Deflate.Block.{
  length_bits, length_base, dist_bits, dist_base, copy_back, copy_pair, block_loop, bits_left,
  deflate_block, get_le16, deflate_uncompressed_block, block_of, blocks, inflate_start,
  deflate_buffer,
}
use cyanea.Deflate.Progress.{
  Reads, Reads-trans, get_bits-Reads, get_extra_bits-Reads, at-Ends, decode_symbol-Reads,
}
use cyanea.Deflate.Progress.Trees.{huffman_dynamic_tree-Reads}

-- A pair makes the output longer.
record Longer (d d' : Inflate) : Type 0 where
  before : is_none d.error ≡ true
  fewer : bits_left d' ≤ bits_left d
  longer : length d.out ≤ length d'.out
  same_size : d'.dest_size ≡ d.dest_size

abbrev Grows : Inflate → Inflate → Type 0
Grows d d' = is_none d'.error ≡ true → Longer d d'

copy_back_le :
    (n offset : ℕ) (out : List ℕ)
    → Ends (λ (out' : List ℕ). length out ≤ length out') (copy_back n offset out)
unfolding copy_back
copy_back_le zero offset out = omega arith
copy_back_le (suc n) offset out = elim (Bool-cases (ltb (length out) offset)) [
  | inl e ↦ rw (copy_back, e) tt
  | inr e ↦
      rw (copy_back, e)
        (Ends-bind (λ (out' : List ℕ). length out ≤ length out') (at out (length out - offset)) _
          (at-Ends out (length out - offset))
          (λ byte u.
            Ends-mono (λ (out' : List ℕ). length out ≤ length out')
              (copy_back n offset (out ++ byte ∷ [])) (copy_back_le n offset (out ++ byte ∷ []))
              (λ out' h. omega (arith, h, length-append out (byte ∷ [])))))
]

copy_pair-Grows : (symbol : ℕ) (d : Inflate) → Ends (Grows d) (copy_pair symbol d)
unfolding copy_pair bits_left
copy_pair-Grows symbol d =
    let i = symbol - 257 in
    let P : ℕ × Inflate → Type 0 = λ r. Reads 0 d r.1 in
    Ends-bind (Grows d) (at length_bits i) _ (at-Ends length_bits i) (λ n u.
      Ends-bind (Grows d) (at length_base i) _ (at-Ends length_base i) (λ base v.
        Ends-bind (Grows d) (get_extra_bits n base d) _ (get_extra_bits-Reads n base d) (λ r g.
          Ends-bind (Grows d) (decode_symbol r.1.distance r.1) _
            (decode_symbol-Reads r.1.distance r.1)
            (λ q h. Ends-bind (Grows d) (at dist_bits q.0) _ (at-Ends dist_bits q.0) (λ m w.
              Ends-bind (Grows d) (at dist_base q.0) _ (at-Ends dist_base q.0) (λ far x.
                Ends-bind (Grows d) (get_extra_bits m far q.1) _ (get_extra_bits-Reads m far q.1)
                  (λ t k.
                    let all : Reads 1 d t.1 = Reads-trans g.0 (Reads-trans h k.0) in
                    elim (Bool-cases (is_none t.1.error)) [
                      | inr e ↦ rw e (λ fine. absurd (ground arith))
                      | inl e ↦
                          let taken = all e in
                          rw e (
                            Ends-bind (Grows d) (copy_back r.0 t.0 t.1.out) _
                              (copy_back_le r.0 t.0 t.1.out)
                              (λ out more fine.
                                let written : length t.1.out ≡ length d.out =
                                  ap length taken.same_out in
                                record {
                                  before = taken.before;
                                  fewer = omega (arith, taken.fewer);
                                  longer = omega (arith, more, written);
                                  same_size = taken.same_size;
                                }))
                    ])))))))

-- Where a block ends without an error, every byte is counted.
abbrev Counts : Inflate → Inflate → Type 0
Counts d d' =
    is_none d'.error ≡ true → (d'.dest_size ≡ length d'.out) × (bits_left d' ≤ bits_left d)

-- A round for each bit that is left, and one more, are enough.
block_loop-Counts :
    (fuel start : ℕ) (d : Inflate)
    → bits_left d < fuel
    → start ≤ length d.out
    → d.dest_size ≡ start
    → Ends (Counts d) (block_loop fuel start d)
unfolding block_loop bits_left
block_loop-Counts zero start d h l s = absurd (omega arith)
block_loop-Counts (suc fuel) start d h l s =
    Ends-bind (Counts d) (decode_symbol d.ll d) _ (decode_symbol-Reads d.ll d) (λ r g.
      elim (Bool-cases (is_none r.1.error)) [
        | inr e ↦ rw e (λ fine. absurd (ground arith))
        | inl e ↦
            let taken = g e in
            let written : length r.1.out ≡ length d.out = ap length taken.same_out in
            elim (Bool-cases (r.0 == 256)) [
              | inl eob ↦
                  rw (e, eob)
                    (λ fine. (omega (arith, taken.same_size, written), omega (arith, taken.fewer)))
              | inr in_block ↦ elim (Bool-cases (ltb r.0 256)) [
                | inl literal ↦
                    rw (e, in_block, literal)
                      (let d' = record r.1 { out = r.1.out ++ r.0 ∷ [] } in
                        Ends-mono (Counts d) (block_loop fuel start d')
                          (block_loop-Counts fuel start d' (omega (arith, taken.fewer))
                            (omega (arith, written, length-append r.1.out (r.0 ∷ [])))
                            (taken.same_size ∙ s))
                          (λ z k fine. ((k fine).0, omega (arith, (k fine).1, taken.fewer))))
                | inr pair ↦
                    rw (e, in_block, pair)
                      (Ends-bind (Counts d) (copy_pair r.0 r.1) _ (copy_pair-Grows r.0 r.1) (λ q k.
                        elim (Bool-cases (is_none q.error)) [
                          | inr f ↦ rw f (λ fine. absurd (ground arith))
                          | inl f ↦
                              let grown = k f in
                              rw f (
                                Ends-mono (Counts d) (block_loop fuel start q)
                                  (block_loop-Counts fuel start q
                                    (omega (arith, taken.fewer, grown.fewer))
                                    (omega (arith, written, grown.longer))
                                    (grown.same_size ∙ taken.same_size ∙ s))
                                  (λ z m fine. (
                                    (m fine).0,
                                    omega (arith, (m fine).1, taken.fewer, grown.fewer),
                                  )))
                        ]))
              ]
            ]
      ])

deflate_block-Counts :
    (d : Inflate) → d.dest_size ≡ length d.out → Ends (Counts d) (deflate_block d)
unfolding deflate_block
deflate_block-Counts d s =
    block_loop-Counts (bits_left d + 1) (length d.out) d (omega arith) (omega arith) s

get_le16-Ends : (bytes : List ℕ) → Ends (λ (x : ℕ). Unit) (get_le16 bytes)
unfolding get_le16
get_le16-Ends bytes =
    Ends-bind (λ (x : ℕ). Unit) (at bytes 0) _ (at-Ends bytes 0)
      (λ low u. Ends-bind (λ (x : ℕ). Unit) (at bytes 1) _ (at-Ends bytes 1) (λ high v. tt))

deflate_uncompressed_block-Counts :
    (d : Inflate) → d.dest_size ≡ length d.out → Ends (Counts d) (deflate_uncompressed_block d)
unfolding deflate_uncompressed_block bits_left
deflate_uncompressed_block-Counts d s = elim (Bool-cases (ltb (length d.input) 4)) [
  | inl e ↦ rw (deflate_uncompressed_block, e) (λ fine. absurd (ground arith))
  | inr e ↦
      rw (deflate_uncompressed_block, e)
        (Ends-bind (Counts d) (get_le16 d.input) _ (get_le16-Ends d.input) (λ len u.
          let input = drop 4 d.input in
          elim (Bool-cases (ltb (length input) len)) [
            | inl f ↦ rw f (λ fine. absurd (ground arith))
            | inr f ↦ rw f (λ fine. (
              omega (
                arith,
                s,
                length-append d.out (take len input),
                length-take len input (ground arith),
              ),
              omega (arith, length-drop len input, length-drop 4 d.input),
            ))
          ]))
]

block_of-Counts :
    (kind : ℕ) (d : Inflate) → d.dest_size ≡ length d.out → Ends (Counts d) (block_of kind d)
unfolding block_of bits_left huffman_fixed_tree
block_of-Counts kind d s = elim (Bool-cases (kind == 0)) [
  | inl e ↦ rw e (deflate_uncompressed_block-Counts d s)
  | inr e ↦ elim (Bool-cases (kind == 1)) [
    | inl f ↦ rw (e, f) (deflate_block-Counts (huffman_fixed_tree d) s)
    | inr f ↦ elim (Bool-cases (kind == 2)) [
      | inr g ↦ rw (e, f, g) (λ fine. absurd (ground arith))
      | inl g ↦
          rw (e, f, g)
            (Ends-bind (Counts d) (huffman_dynamic_tree d) _ (huffman_dynamic_tree-Reads d) (λ d' k.
              elim (Bool-cases (is_none d'.error)) [
                | inr z ↦ rw z (λ fine. absurd (ground arith))
                | inl z ↦
                    let taken = k z in
                    rw z (
                      Ends-mono (Counts d) (deflate_block d')
                        (deflate_block-Counts d'
                          (taken.same_size ∙ s ∙ sym (ap length taken.same_out)))
                        (λ q m fine. ((m fine).0, omega (arith, (m fine).1, taken.fewer))))
              ]))
    ]
  ]
]

blocks-Counts :
    (fuel : ℕ) (d : Inflate)
    → bits_left d < fuel
    → d.dest_size ≡ length d.out
    → Ends (Counts d) (blocks fuel d)
unfolding blocks
blocks-Counts zero d h s = absurd (omega arith)
blocks-Counts (suc fuel) d h s =
    Ends-bind (Counts d) (get_bits 1 d) _ (get_bits-Reads 1 d) (λ final g.
      Ends-bind (Counts d) (get_bits 2 final.1) _ (get_bits-Reads 2 final.1) (λ kind k.
        let all : Reads 3 d kind.1 = Reads-trans g.0 k.0 in
        elim (Bool-cases (is_none kind.1.error)) [
          | inr e ↦ rw e (λ fine. absurd (ground arith))
          | inl e ↦
              let taken = all e in
              let counted = taken.same_size ∙ s ∙ sym (ap length taken.same_out) in
              rw e (
                Ends-bind (Counts d) (block_of kind.0 kind.1) _
                  (block_of-Counts kind.0 kind.1 counted)
                  (λ d' m. elim (Bool-cases (is_none d'.error)) [
                    | inr f ↦ rw f (λ fine. absurd (ground arith))
                    | inl f ↦
                        let (sized, fewer) = m f in
                        elim (Bool-cases (final.0 == 0)) [
                          | inr last ↦
                              rw (f, last) (λ fine. (sized, omega (arith, fewer, taken.fewer)))
                          | inl more ↦
                              rw (f, more)
                                (Ends-mono (Counts d) (blocks fuel d')
                                  (blocks-Counts fuel d' (omega (arith, fewer, taken.fewer)) sized)
                                  (λ q z fine.
                                    ((z fine).0, omega (arith, (z fine).1, fewer, taken.fewer))))
                        ]
                  ]))
        ]))

-- The output of a run that ends without an error is `dest_size` bytes long.
abbrev pub Sized : Inflate → Type 0
Sized d = (is_none d.error ≡ false) ⊎ (d.dest_size ≡ length d.out)

deflate_buffer-Ends :
    (ll distance : Tree) (source : List ℕ) → Ends Sized (deflate_buffer ll distance source)
unfolding deflate_buffer inflate_start bits_left
deflate_buffer-Ends ll distance source =
    let d = inflate_start ll distance source in
    Ends-mono Sized (blocks (length source * 8 + 1) d)
      (blocks-Counts (length source * 8 + 1) d (omega arith) refl)
      (λ q z. elim (Bool-cases (is_none q.error)) [ inl e ↦ inr (z e).0 | inr e ↦ inl e ])

-- On any input for which it does not fault, with an access outside an array or an undefined shift by 32
-- bits or more, `deflate_buffer` returns: the loops never run out of fuel. Where it returns without an
-- error, the size that it stores is the number of the bytes that are written.
pub deflate_buffer-Sized :
    (ll distance : Tree) (source : List ℕ)
    → deflate_buffer ll distance source ≢ fault
    → Returns Sized (deflate_buffer ll distance source)
deflate_buffer-Sized ll distance source no_fault =
    Ends-Returns (deflate_buffer ll distance source) (deflate_buffer-Ends ll distance source)
      no_fault
