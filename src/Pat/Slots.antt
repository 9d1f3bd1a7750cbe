-- ===== src/Pat/Slots.antt =====
-- What `init_cache_modes` of arch/x86/ukernel/cache.c leaves in the two tables.
use cyanea.Prelude.{
  ℕ, zero, suc, ◌+◌, ◌<◌, ◌≡◌, ◌≢◌, refl, sym, ap, ◌∙◌, inl, inr, bit_and, false, not, ◌&&◌, ◌==◌,
  if◌then◌else◌, halt, ◌>>=◌, Returns, returns, Returns-bind, Returns_mono, Bool-cases, arith,
}
use cyanea.Pat.{
  mode_wb, idx_pat2pte, pte2pat, page_cache_mask, Pat, cachemode2protval, pgprot2cachemode,
  update_cache_mode_entry, slot_mode, modes_loop, init_cache_modes,
}

-- The first slots are entered. A mode that is in several of them has the bits of one of those.
record Slots (pat i : ℕ) (t : Pat) : Type 0 where
  modes : (j : ℕ) → j < i → t.pat_idx_to_cachemode j ≡ slot_mode pat j
  ptes :
      (j : ℕ)
      → j < i
      → (k : ℕ) × (k < i)
        × (slot_mode pat k ≡ slot_mode pat j)
        × (t.cachemode_to_pte (slot_mode pat j) ≡ idx_pat2pte k)

update-Slots :
    (pat i : ℕ) (t : Pat)
    → slot_mode pat 0 ≡ mode_wb
    → Slots pat i t
    → Returns (Slots pat (i + 1)) (update_cache_mode_entry i (slot_mode pat i) t)
unfolding update_cache_mode_entry
update-Slots pat i t first s =
    let mode = slot_mode pat i in
    let allowed : (i == 0 && not (mode == mode_wb)) ≡ false = elim (Bool-cases (i == 0)) [
      | inl e ↦
          let zero_is : i ≡ 0 = ground (arith, e) in
          let wb : mode ≡ mode_wb = ap (slot_mode pat) zero_is ∙ first in ground (arith, wb)
      | inr e ↦ rw e refl
    ] in
    rw allowed (
      returns
        (record {
          cachemode_to_pte = λ m. if m == mode then idx_pat2pte i else t.cachemode_to_pte m;
          pat_idx_to_cachemode = λ j. if j == i then mode else t.pat_idx_to_cachemode j;
        })
        (record {
          modes = λ j h. elim (Bool-cases (j == i)) [
            | inl e ↦ rw e (ap (slot_mode pat) (ground (arith, e)))
            | inr e ↦ rw e (s.modes j (ground (arith, e)))
          ];
          ptes = λ j h. elim (Bool-cases (slot_mode pat j == mode)) [
            | inl e ↦ (i, omega arith, ground (arith, e), rw e refl)
            | inr e ↦
                let earlier : j < i = elim (Bool-cases (j == i)) [
                  | inl f ↦
                      let same : slot_mode pat j ≡ mode = ap (slot_mode pat) (ground (arith, f)) in
                      absurd (ground (arith, same, e))
                  | inr f ↦ ground (arith, f)
                ] in
                let (k, lt, eq, pte) = s.ptes j earlier in (k, omega arith, eq, rw e pte)
          ];
        }))

modes_loop-Slots :
    (left i pat : ℕ) (t : Pat)
    → slot_mode pat 0 ≡ mode_wb
    → Slots pat i t
    → Returns (Slots pat (i + left)) (modes_loop left i pat t)
unfolding modes_loop
modes_loop-Slots zero i pat t first s = let same : i + 0 ≡ i = omega arith in rw same (returns t s)
modes_loop-Slots (suc left) i pat t first s =
    let same : i + suc left ≡ i + 1 + left = omega arith in
    rw same (
      Returns-bind (Slots pat (i + 1 + left)) _ (update-Slots pat i t first s)
        (λ t' s'. modes_loop-Slots left (i + 1) pat t' first s'))

-- The bits of a slot.
bits_of :
    (k : ℕ)
    → k < 8
    → (bit_and (idx_pat2pte k) page_cache_mask ≡ idx_pat2pte k)
      × (pte2pat (idx_pat2pte k) ≡ k)
      × ((idx_pat2pte k == 0) ≡ (k == 0))
unfolding idx_pat2pte pte2pat
bits_of zero h = (refl, refl, refl)
bits_of (suc zero) h = (refl, refl, refl)
bits_of (suc (suc zero)) h = (refl, refl, refl)
bits_of (suc (suc (suc zero))) h = (refl, refl, refl)
bits_of (suc (suc (suc (suc zero)))) h = (refl, refl, refl)
bits_of (suc (suc (suc (suc (suc zero))))) h = (refl, refl, refl)
bits_of (suc (suc (suc (suc (suc (suc zero)))))) h = (refl, refl, refl)
bits_of (suc (suc (suc (suc (suc (suc (suc zero))))))) h = (refl, refl, refl)
bits_of (suc (suc (suc (suc (suc (suc (suc (suc k)))))))) h = absurd (omega arith)

slot_of :
    (pat k : ℕ) (t : Pat)
    → slot_mode pat 0 ≡ mode_wb
    → Slots pat 8 t
    → k < 8
    → pgprot2cachemode (idx_pat2pte k) t ≡ slot_mode pat k
unfolding pgprot2cachemode
slot_of pat k t first s h =
    let (masked, back, is_zero) = bits_of k h in
    elim (Bool-cases (k == 0)) [
      | inl e ↦ rw (masked, is_zero, e) (sym first ∙ ap (slot_mode pat) (ground (arith, e)))
      | inr e ↦ rw (masked, is_zero, e, back) (s.modes k h)
    ]

-- Each slot: its bits stand for its mode, and the mode has bits that stand for it.
pub record Decoded (pat : ℕ) (t : Pat) : Type 0 where
  pub slots : (k : ℕ) → k < 8 → pgprot2cachemode (idx_pat2pte k) t ≡ slot_mode pat k
  pub modes :
      (k : ℕ) → k < 8 → pgprot2cachemode (cachemode2protval (slot_mode pat k) t) t ≡ slot_mode pat k

no_bits : (t : Pat) → pgprot2cachemode 0 t ≡ mode_wb
unfolding pgprot2cachemode
no_bits t = refl

refused : (mode : ℕ) (t : Pat) → mode ≢ mode_wb → update_cache_mode_entry 0 mode t ≡ halt
unfolding update_cache_mode_entry
refused mode t h = let other : (mode == mode_wb) ≡ false = ground arith in rw other refl

mode_of :
    (pat k : ℕ) (t : Pat)
    → slot_mode pat 0 ≡ mode_wb
    → Slots pat 8 t
    → k < 8
    → pgprot2cachemode (cachemode2protval (slot_mode pat k) t) t ≡ slot_mode pat k
unfolding cachemode2protval
mode_of pat k t first s h = elim (Bool-cases (slot_mode pat k == mode_wb)) [
  | inl e ↦ rw e (no_bits t ∙ ground (arith, e))
  | inr e ↦ let (j, lt, eq, pte) = s.ptes k h in rw (e, pte) (slot_of pat j t first s lt ∙ eq)
]

-- For a value of the register whose first slot is WB, `init_cache_modes` returns, and then the bits of
-- each slot stand for its mode, and the bits that are given for a mode of the register stand for it.
pub init_cache_modes-Decoded :
    (pat : ℕ) (t : Pat) → slot_mode pat 0 ≡ mode_wb → Returns (Decoded pat) (init_cache_modes pat t)
unfolding init_cache_modes
init_cache_modes-Decoded pat t first =
    let none_yet : Slots pat 0 t = record {
      modes = λ j h. absurd (omega arith);
      ptes = λ j h. absurd (omega arith);
    } in
    Returns_mono (modes_loop-Slots 8 0 pat t first none_yet) (λ t' s. record {
      slots = λ k h. slot_of pat k t' first s h;
      modes = λ k h. mode_of pat k t' first s h;
    })

-- For any other value it halts.
init_cache_modes-halt :
    (pat : ℕ) (t : Pat) → slot_mode pat 0 ≢ mode_wb → init_cache_modes pat t ≡ halt
unfolding init_cache_modes modes_loop
init_cache_modes-halt pat t first =
    ap (λ r. r >>= modes_loop 7 1 pat) (refused (slot_mode pat 0) t first)
