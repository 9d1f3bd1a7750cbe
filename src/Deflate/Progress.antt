-- ===== src/Deflate/Progress.antt =====
-- How far the input of efi-boot/deflate.c is read: the bits that `get_bits` and `decode_symbol` take.
pub mod Trees
pub mod Blocks
use Prim.Native.Nat.{bit_and, bit_or}
use cyanea.Prelude.{
  ℕ, zero, suc, ◌+◌, ◌-◌, ◌*◌, ◌/◌, ◌%◌, ◌^◌, ◌≤◌, ◌<◌, ◌≡◌, refl, sym, ap, subst, ◌∙◌, inl, inr,
  Bool, Bool-cases, true, false, not, List, [], ◌∷◌, none, some, Option-cases, get_elem?, drop, ltb,
  leb, ◌==◌, length, Run, ok, fault, Ends, Ends-bind, Ends-mono, ◌>>=◌, arith, min,
}
use cyanea.Align.{bit_and_le, pow_pos}
use cyanea.Deflate.State.{Tree, Inflate, is_none, Filled, fill, get_bits, get_extra_bits}
use cyanea.Deflate.Huffman.{at, decode_from, decode_symbol}
use cyanea.Deflate.Block.{bits_left}

-- From `d` to `d'`, both without an error, at least `k` bits are taken, and nothing is written.
pub record Takes (k : ℕ) (d d' : Inflate) : Type 0 where
  pub before : is_none d.error ≡ true
  pub fewer : bits_left d' + k ≤ bits_left d
  pub same_out : d'.out ≡ d.out
  pub same_size : d'.dest_size ≡ d.dest_size

abbrev pub Reads : ℕ → Inflate → Inflate → Type 0
Reads k d d' = is_none d'.error ≡ true → Takes k d d'

pub Takes-trans : {j k : ℕ} {d e f : Inflate} → Takes j d e → Takes k e f → Takes (j + k) d f
Takes-trans p q = record {
  before = p.before;
  fewer = omega (arith, p.fewer, q.fewer);
  same_out = q.same_out ∙ p.same_out;
  same_size = q.same_size ∙ p.same_size;
}

pub Takes-weaken : {j k : ℕ} {d e : Inflate} → j ≤ k → Takes k d e → Takes j d e
Takes-weaken h p = record {
  before = p.before;
  fewer = omega (arith, p.fewer);
  same_out = p.same_out;
  same_size = p.same_size;
}

pub Reads-trans : {j k : ℕ} {d e f : Inflate} → Reads j d e → Reads k e f → Reads (j + k) d f
Reads-trans p q fine = let later = q fine in Takes-trans (p later.before) later

pub fill-bits :
    (n : ℕ) (input : List ℕ) (accum bits : ℕ)
    → length (fill n input accum bits).rest * 8 + (fill n input accum bits).bits
      ≡ length input * 8 + bits
unfolding fill
fill-bits n [] accum bits = refl
fill-bits n (byte ∷ input) accum bits = elim (Bool-cases (ltb bits n)) [
  | inl e ↦
      rw e (omega (arith, fill-bits n input (bit_or accum (byte * 2 ^ bits % 2 ^ 32)) (bits + 8)))
  | inr e ↦ rw e refl
]

pub fill-enough :
    (n : ℕ) (input : List ℕ) (accum bits : ℕ)
    → (fill n input accum bits).enough ≡ true
    → n ≤ (fill n input accum bits).bits
unfolding fill
fill-enough n [] accum bits = λ h. ground arith
fill-enough n (byte ∷ input) accum bits = elim (Bool-cases (ltb bits n)) [
  | inl e ↦ rw e (fill-enough n input (bit_or accum (byte * 2 ^ bits % 2 ^ 32)) (bits + 8))
  | inr e ↦ rw e (λ h. ground arith)
]

-- What `get_bits` and `get_extra_bits` give, with the bound on the value.
pub get_bits-Reads :
    (n : ℕ) (d : Inflate)
    → Ends (λ (r : ℕ × Inflate). Reads n d r.1 × (r.0 ≤ 2 ^ n - 1)) (get_bits n d)
unfolding get_bits bits_left
get_bits-Reads n d =
    let f = fill n d.input d.bit_accum d.nr_bits in
    elim (Bool-cases (is_none d.error)) [
      | inr e ↦ rw e ((λ fine. absurd (ground arith)), omega arith)
      | inl e ↦ elim (Bool-cases f.enough) [
        | inl en ↦ elim (Bool-cases (leb 32 n)) [
          | inl big ↦ rw (e, en, big) tt
          | inr small ↦
              rw (e, en, small)
                (
                  (λ fine. record {
                    before = e;
                    fewer = omega (
                      arith,
                      fill-bits n d.input d.bit_accum d.nr_bits,
                      fill-enough n d.input d.bit_accum d.nr_bits en,
                    );
                    same_out = refl;
                    same_size = refl;
                  }),
                  bit_and_le (2 ^ n - 1) f.accum (2 ^ n - 1) (omega arith),
                )
        ]
        | inr short ↦ elim (Bool-cases (leb 40 f.bits)) [
          | inl wide ↦ rw (e, short, wide) tt
          | inr room ↦ rw (e, short, room) ((λ fine. absurd (ground arith)), omega arith)
        ]
      ]
    ]

pub get_extra_bits-Reads :
    (n base : ℕ) (d : Inflate)
    → Ends
        (λ (r : ℕ × Inflate). Reads 0 d r.1 × (base + 2 ^ n ≤ 2 ^ 32 → base ≤ r.0))
        (get_extra_bits n base d)
unfolding get_extra_bits
get_extra_bits-Reads n base d = elim (Bool-cases (n == 0)) [
  | inl e ↦ rw e (
    (λ fine. record { before = fine; fewer = omega arith; same_out = refl; same_size = refl }),
    (λ h. omega arith),
  )
  | inr e ↦ rw e (
      Ends-bind (λ (r : ℕ × Inflate). Reads 0 d r.1 × (base + 2 ^ n ≤ 2 ^ 32 → base ≤ r.0))
        (get_bits n d) (λ (bits, d'). ok ((base + bits) % 2 ^ 32, d')) (get_bits-Reads n d)
        (λ r g.
          ((λ fine. Takes-weaken (omega arith) (g.0 fine)), (λ h. omega (arith, g.1, pow_pos n)))))
]

pub at-Ends : (xs : List ℕ) (i : ℕ) → Ends (λ (x : ℕ). Unit) (at xs i)
unfolding at
at-Ends xs i = elim (Option-cases (get_elem? xs i)) [
  | inl e ↦ rw (Ends, e) tt
  | inr (x, e) ↦ rw (Ends, e) tt
]

decode_from-Reads :
    (counts sorted : List ℕ) (sum offs : ℕ) (d : Inflate)
    → Ends (λ (r : ℕ × Inflate). Reads 1 d r.1) (decode_from counts sorted sum offs d)
unfolding decode_from
decode_from-Reads [] sorted sum offs d = λ fine. absurd (ground arith)
decode_from-Reads (count ∷ counts) sorted sum offs d =
    Ends-bind (λ (r : ℕ × Inflate). Reads 1 d r.1) (get_bits 1 d) _ (get_bits-Reads 1 d)
      (λ r g.
        let offs' = (2 * offs + r.0) % 2 ^ 16 in
        elim (Bool-cases (is_none r.1.error)) [
          | inr e ↦ rw e g.0
          | inl e ↦ elim (Bool-cases (ltb offs' count)) [
            | inl here ↦
                rw (e, here)
                  (Ends-bind (λ (t : ℕ × Inflate). Reads 1 d t.1) (at sorted (sum + offs')) _
                    (at-Ends sorted (sum + offs')) (λ symbol u. g.0))
            | inr later ↦
                rw (e, later)
                  (Ends-mono (λ (t : ℕ × Inflate). Reads 1 d t.1)
                    (decode_from counts sorted ((sum + count) % 2 ^ 16) (offs' - count) r.1)
                    (decode_from-Reads counts sorted ((sum + count) % 2 ^ 16) (offs' - count) r.1)
                    (λ t more fine. Takes-weaken (omega arith) (Reads-trans g.0 more fine)))
          ]
        ])

pub decode_symbol-Reads :
    (tree : Tree) (d : Inflate) → Ends (λ (r : ℕ × Inflate). Reads 1 d r.1) (decode_symbol tree d)
unfolding decode_symbol
decode_symbol-Reads tree d = decode_from-Reads (drop 1 tree.bl_count) tree.sorted_symbols 0 0 d
