-- ===== src/PageTable/Leaf.antt =====
-- `physical_pt_init` of arch/x86/ukernel/mm.c: the entries of one table of the last level.
use cyanea.Prelude.{
  ℕ, zero, suc, ◌+◌, ◌-◌, ◌*◌, ◌/◌, ◌%◌, ◌^◌, ◌≤◌, ◌<◌, ◌≡◌, ◌≢◌, ◌⊎◌, inl, inr, refl, sym, ap, ◌∙◌,
  bit_or, true, false, ◌&&◌, ltb, ◌==◌, add64, sub64, Returns, returns, Returns_mono, Bool-cases,
  and_true, arith,
}
use cyanea.Align.{bit_and_mask}
use cyanea.Bits.{bit_and-low}
use cyanea.PageTable.Tables.{
  Setup, Tables, page_offset, start_kernel_map, va, pa, page_kernel, pte_present, check_pgprot,
  entry_at, entry_set, next_page_of, index, pt_loop, physical_pt_init,
}
use cyanea.PageTable.Kept.{pte_present_iff}

-- What the direct mapping can hold: the addresses below the mapping of the kernel.
abbrev pub direct_size : ℕ
direct_size = start_kernel_map - page_offset

pub pa-va : (c : Setup) (x : ℕ) → x < direct_size → pa c (va x) ≡ x
unfolding pa va
pa-va c x h =
    let v_is : add64 x page_offset ≡ x + page_offset = omega arith in
    let high : ltb (sub64 (add64 x page_offset) start_kernel_map) (add64 x page_offset) ≡ false =
      ground (arith, v_is) in
    rw high (omega (arith, v_is))

index-va : (x : ℕ) → x < direct_size → index 12 (va x) ≡ x / 2 ^ 12 % 512
unfolding index va
index-va x h = bit_and-low 9 (add64 x page_offset / 2 ^ 12) ∙ omega arith

next_page_of-va :
    (f : ℕ)
    → (f + 1) * 2 ^ 12 ≤ direct_size
    → next_page_of 12 (va (f * 2 ^ 12)) ≡ va ((f + 1) * 2 ^ 12)
unfolding next_page_of va
next_page_of-va f h =
    let v = add64 (f * 2 ^ 12) page_offset in
    let (q, e, lo, hi) = bit_and_mask 64 12 v (omega arith) (omega arith) in
    omega (arith, e, lo, hi)

va_lt : (x y : ℕ) → x < direct_size → y < direct_size → ltb (va x) (va y) ≡ true → x < y
unfolding va
va_lt x y h k e = ground arith

va_le : (x y : ℕ) → x < direct_size → y < direct_size → ltb (va x) (va y) ≡ false → y ≤ x
unfolding va
va_le x y h k e = ground arith

-- The frames from `base + i` up to `limit` are entered, as far as the table goes, and nothing else is
-- changed. `base` is the frame of the first entry.
pub record Filled (c : Setup) (pt base i limit : ℕ) (t t' : Tables) : Type 0 where
  pub mapped :
      (j : ℕ)
      → i ≤ j
      → j < 512
      → base + j < limit
      → entry_at c pt j t' ≡ bit_or ((base + j) * 2 ^ 12) (check_pgprot c page_kernel)
  pub others :
      (page j : ℕ)
      → (page ≢ pa c pt) ⊎ ((j < i) ⊎ ((512 ≤ j) ⊎ (limit ≤ base + j)))
      → t'.pages page j ≡ t.pages page j
  pub same_next : t'.next_page ≡ t.next_page

entry_set-same :
    (c : Setup) (table i e : ℕ) (t : Tables) → entry_at c table i (entry_set c table i e t) ≡ e
unfolding entry_set entry_at
entry_set-same c table i e t =
    let here : (pa c table == pa c table && i == i) ≡ true = ground arith in rw here refl

entry_set-other :
    (c : Setup) (table i e page j : ℕ) (t : Tables)
    → (page ≢ pa c table) ⊎ (j ≢ i)
    → (entry_set c table i e t).pages page j ≡ t.pages page j
unfolding entry_set
entry_set-other c table i e page j t h =
    let elsewhere : (page == pa c table && j == i) ≡ false =
      elim (Bool-cases (page == pa c table && j == i)) [
        | inl e ↦
            let (p, q) = and_true (page == pa c table) (j == i) e in
            let page_is : page ≡ pa c table = ground arith in
            let j_is : j ≡ i = ground arith in
            absurd (elim h [ inl a ↦ a page_is | inr a ↦ a j_is ])
        | inr e ↦ e
      ] in
    rw elsewhere refl

entry_at-same :
    (c : Setup) (table i : ℕ) (t t' : Tables)
    → t.pages (pa c table) i ≡ t'.pages (pa c table) i
    → entry_at c table i t ≡ entry_at c table i t'
unfolding entry_at
entry_at-same c table i t t' e = e

Filled-cons :
    (c : Setup) (pt base i limit : ℕ) (t t' : Tables)
    → i < 512
    → base + i < limit
    → Filled c pt base
        (i + 1)
        limit
        (entry_set c pt i (bit_or ((base + i) * 2 ^ 12) (check_pgprot c page_kernel)) t)
        t'
    → Filled c pt base i limit t t'
unfolding entry_set
Filled-cons c pt base i limit t t' in_table below r =
    let v = bit_or ((base + i) * 2 ^ 12) (check_pgprot c page_kernel) in
    let t₁ = entry_set c pt i v t in
    let same : (page j : ℕ) → (page ≢ pa c pt) ⊎ (j ≢ i) → t₁.pages page j ≡ t.pages page j =
      λ page j h. entry_set-other c pt i v page j t h in
    record {
      mapped = λ j lo hi b. elim (Bool-cases (j == i)) [
        | inl z ↦
            let j_is : j ≡ i = ground arith in
            ap (λ q. entry_at c pt q t') j_is
            ∙ entry_at-same c pt i t' t₁ (r.others (pa c pt) i (inr (inl (omega arith))))
            ∙ entry_set-same c pt i v t
            ∙ ap (λ q. bit_or ((base + q) * 2 ^ 12) (check_pgprot c page_kernel)) (sym j_is)
        | inr z ↦ let more : j ≢ i = ground arith in r.mapped j (omega (arith, more)) hi b
      ];
      others = λ page j h.
          r.others page j (elim h [
            | inl a ↦ inl a
            | inr a ↦ inr (elim a [ inl low ↦ inl (omega arith) | inr high ↦ inr high ])
          ])
          ∙ same page j (elim h [ inl a ↦ inl a | inr a ↦ inr (λ z. omega (arith, a, z, below)) ]);
      same_next = r.same_next;
    }

pt_loop-Filled :
    (c : Setup) (pt left base i limit : ℕ) (t : Tables)
    → i + left ≡ 512
    → (base + i) * 2 ^ 12 < direct_size
    → limit * 2 ^ 12 < direct_size
    → ((j : ℕ) → i ≤ j → j < 512 → base + j < limit → entry_at c pt j t % 2 ≢ 1)
    → Returns
        (Filled c pt base i limit t)
        (pt_loop c pt left (va ((base + i) * 2 ^ 12)) (va (limit * 2 ^ 12)) t)
unfolding pt_loop entry_set
pt_loop-Filled c pt zero base i limit t sum start small free = returns t (record {
  mapped = λ j lo hi below. absurd (omega arith);
  others = λ page j h. refl;
  same_next = refl;
})
pt_loop-Filled c pt (suc left) base i limit t sum start small free =
    let f = base + i in
    let here : 511 - left ≡ i = omega arith in
    elim (Bool-cases (ltb (va (f * 2 ^ 12)) (va (limit * 2 ^ 12)))) [
      | inr e ↦
          let done : limit * 2 ^ 12 ≤ f * 2 ^ 12 =
            va_le (f * 2 ^ 12) (limit * 2 ^ 12) start small e in
          rw (pt_loop, e)
            (returns t (record {
              mapped = λ j lo hi below. absurd (omega (arith, done));
              others = λ page j h. refl;
              same_next = refl;
            }))
      | inl e ↦
          let below : f < limit =
            let z = va_lt (f * 2 ^ 12) (limit * 2 ^ 12) start small e in omega (arith, z) in
          let unused : pte_present (entry_at c pt i t) ≡ false =
            let a = free i (omega arith) (omega arith) below in
            pte_present_iff (entry_at c pt i t) ∙ ground arith in
          let at_f = pa-va c (f * 2 ^ 12) (omega (arith, below)) in
          let v = bit_or (f * 2 ^ 12) (check_pgprot c page_kernel) in
          let t₁ = entry_set c pt i v t in
          let same : (page j : ℕ) → (page ≢ pa c pt) ⊎ (j ≢ i) → t₁.pages page j ≡ t.pages page j =
            λ page j h. entry_set-other c pt i v page j t h in
          let next = next_page_of-va f (omega (arith, below)) in
          let frame : (f + 1) * 2 ^ 12 ≡ (base + (i + 1)) * 2 ^ 12 = omega arith in
          rw (pt_loop, e, here, unused, at_f, next, frame, here)
            (Returns_mono
              (pt_loop-Filled c pt left base (i + 1) limit t₁ (omega arith) (omega (arith, below))
                small
                (λ j lo hi b q. free j (omega arith) hi b (
                  ap (λ w. w % 2)
                    (sym (entry_at-same c pt j t₁ t (same (pa c pt) j (inr (λ z. omega arith)))))
                  ∙ q)))
              (λ t' r. Filled-cons c pt base i limit t t' (omega arith) below r))
    ]

-- For a range of frames from `first` to `limit`, all below the mapping of the kernel, and a table
-- in which no entry of the range is present, `physical_pt_init` returns: the entries from that of
-- `first` on map their frames with the protection of the kernel, as far as the range and the table
-- go, and nothing else is changed.
pub physical_pt_init-Filled :
    (c : Setup) (pt first limit : ℕ) (t : Tables)
    → first * 2 ^ 12 < direct_size
    → limit * 2 ^ 12 < direct_size
    → ((j : ℕ)
        → first % 512 ≤ j
        → j < 512
        → first / 512 * 512 + j < limit
        → entry_at c pt j t % 2 ≢ 1)
    → Returns
        (Filled c pt (first / 512 * 512) (first % 512) limit t)
        (physical_pt_init c pt (first * 2 ^ 12) (limit * 2 ^ 12) t)
unfolding physical_pt_init
physical_pt_init-Filled c pt first limit t start small free =
    let split : first / 512 * 512 + first % 512 ≡ first = omega arith in
    let whole : first * 2 ^ 12 ≡ (first / 512 * 512 + first % 512) * 2 ^ 12 = omega arith in
    let i_is : index 12 (va (first * 2 ^ 12)) ≡ first % 512 =
      index-va (first * 2 ^ 12) start ∙ omega arith in
    rw (i_is, whole)
      (pt_loop-Filled c pt (512 - first % 512) (first / 512 * 512) (first % 512) limit t
        (omega arith) (omega arith) small free)
