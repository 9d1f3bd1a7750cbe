-- ===== src/PageTable/Split.antt =====
-- How `init_range_memory_mapping` of arch/x86/ukernel/mm.c splits a range.
use native.Mathlib.Nat.{mul-mod_left}
use cyanea.Prelude.{
  ℕ, ◌+◌, ◌*◌, ◌/◌, ◌%◌, ◌^◌, ◌≤◌, ◌<◌, ◌≡◌, ◌⊎◌, inl, inr, min, refl, ap, ◌∙◌, List, [], ◌∷◌, ltb,
  Bool-cases, arith,
}
use cyanea.Align.{pow_le}
use cyanea.Align.Rounding.{round_up, round_down, round_up-multiple, round_down-multiple}
use cyanea.PageTable.{
  PageSize, page_size_4k, page_size_2m, page_size_1g, Piece, pmd_frames, pud_frames, stage,
  range_pieces,
}

-- How many frames a page has.
unfoldable pub frames : PageSize → ℕ
frames page_size_4k = 1
frames page_size_2m = 2 ^ 9
frames page_size_1g = 2 ^ 18

-- The pieces lie one behind the other, from the first frame to the limit; none is empty, and each is
-- made of whole pages of its size, which are aligned.
unfoldable pub Cover : ℕ → ℕ → List Piece → Type 0
Cover first limit [] = first ≡ limit
Cover first limit (p ∷ ps) =
    (p.start_pfn ≡ first)
    × (p.start_pfn < p.end_pfn)
    × (p.start_pfn % frames p.ps ≡ 0)
    × (p.end_pfn % frames p.ps ≡ 0)
    × Cover p.end_pfn limit ps

stage-Cover :
    (pfn start_pfn end_pfn limit : ℕ) (ps : PageSize) (rest : ℕ → List Piece)
    → (start_pfn < end_pfn
        → (start_pfn ≡ pfn)
          × (start_pfn % frames ps ≡ 0)
          × (end_pfn % frames ps ≡ 0)
          × Cover end_pfn limit (rest end_pfn))
    → (end_pfn ≤ start_pfn → Cover pfn limit (rest pfn))
    → Cover pfn limit (stage pfn start_pfn end_pfn ps rest)
unfolding stage Cover
stage-Cover pfn start_pfn end_pfn limit ps rest full empty =
    elim (Bool-cases (ltb start_pfn end_pfn)) [
      | inl e ↦
          let less : start_pfn < end_pfn = ground arith in
          let (at_pfn, from, to, behind) = full less in rw e (at_pfn, less, from, to, behind)
      | inr e ↦ rw e (empty (ground arith))
    ]

-- The rounding of a frame, which is below 2^52.
up :
    (pfn k : ℕ)
    → pfn < 2 ^ 52
    → k < 20
    → (round_up pfn (2 ^ k) % 2 ^ k ≡ 0)
      × (pfn ≤ round_up pfn (2 ^ k))
      × (round_up pfn (2 ^ k) < pfn + 2 ^ k)
up pfn k small few =
    let low : 2 ^ k ≤ 2 ^ 20 = pow_le k 20 (omega arith) in
    let (q, e, lo, hi) = round_up-multiple pfn k (omega arith) (omega arith) in
    (ap (λ t. t % 2 ^ k) e ∙ mul-mod_left q (2 ^ k), omega (arith, e, lo), omega (arith, e, hi))

down :
    (pfn k : ℕ)
    → pfn < 2 ^ 52
    → k < 20
    → (round_down pfn (2 ^ k) % 2 ^ k ≡ 0)
      × (round_down pfn (2 ^ k) ≤ pfn)
      × (pfn < round_down pfn (2 ^ k) + 2 ^ k)
down pfn k small few =
    let (q, e, lo, hi) = round_down-multiple pfn k (omega arith) (omega arith) in
    (ap (λ t. t % 2 ^ k) e ∙ mul-mod_left q (2 ^ k), omega (arith, e, lo), omega (arith, e, hi))

-- A frame within the range at which the 4 KiB pages at its head end: the limit, or that of a large
-- page.
record Edge (limit pfn : ℕ) : Type 0 where
  under : pfn ≤ limit
  edge : (pfn ≡ limit) ⊎ (pfn % 2 ^ 9 ≡ 0)

-- The stages of the body, from the last one on.
module _ (limit : ℕ) (small : limit < 2 ^ 52) where
  abbrev last_pmd : ℕ
  last_pmd = round_down limit pmd_frames

  abbrev last_pud : ℕ
  last_pud = round_down limit pud_frames

  abbrev stage₅ : ℕ → List Piece
  stage₅ pfn = stage pfn pfn limit page_size_4k (λ last. [])

  abbrev stage₄ : ℕ → List Piece
  stage₄ pfn = stage pfn (round_up pfn pmd_frames) last_pmd page_size_2m stage₅

  abbrev stage₃ : ℕ → List Piece
  stage₃ pfn = stage pfn (round_up pfn pud_frames) last_pud page_size_1g stage₄

  abbrev stage₂ : ℕ → List Piece
  stage₂ pfn =
      stage pfn (round_up pfn pmd_frames) (min (round_up pfn pud_frames) last_pmd) page_size_2m
        stage₃

  stage₅-Cover : (pfn : ℕ) → pfn ≤ limit → Cover pfn limit (stage₅ pfn)
  unfolding Cover frames
  stage₅-Cover pfn under =
      stage-Cover pfn pfn limit limit page_size_4k (λ last. [])
        (λ less. (refl, omega arith, omega arith, refl)) (λ done. omega arith)

  stage₄-Cover : (pfn : ℕ) → Edge limit pfn → Cover pfn limit (stage₄ pfn)
  unfolding frames
  stage₄-Cover pfn e =
      let under = e.under in
      let edge = e.edge in
      let (up_is, up_lo, up_hi) = up pfn 9 (omega arith) (omega arith) in
      let (down_is, down_lo, down_hi) = down limit 9 (omega arith) (omega arith) in
      stage-Cover pfn (round_up pfn pmd_frames) last_pmd limit page_size_2m stage₅
        (λ less. (
          omega (arith, edge, up_is, up_lo, up_hi, down_is, down_lo),
          omega (arith, up_is),
          omega (arith, down_is),
          stage₅-Cover last_pmd (omega (arith, down_is, down_lo)),
        ))
        (λ done. stage₅-Cover pfn under)

  -- Before the 1 GiB pages: at one of them, or there is none.
  stage₃-Cover :
      (pfn : ℕ)
      → Edge limit pfn
      → (limit / 2 ^ 18 * 2 ^ 18 ≤ pfn) ⊎ (pfn % 2 ^ 18 ≡ 0)
      → Cover pfn limit (stage₃ pfn)
  unfolding frames
  stage₃-Cover pfn e at_pud =
      let under = e.under in
      let (up_is, up_lo, up_hi) = up pfn 18 (omega arith) (omega arith) in
      let (down_is, down_lo, down_hi) = down limit 18 (omega arith) (omega arith) in
      stage-Cover pfn (round_up pfn pud_frames) last_pud limit page_size_1g stage₄
        (λ less. (
          omega (arith, at_pud, up_is, up_lo, up_hi, down_is, down_lo, down_hi),
          omega (arith, up_is),
          omega (arith, down_is),
          stage₄-Cover last_pud (record {
            under = omega (arith, down_is, down_lo);
            edge = inr (omega (arith, down_is));
          }),
        ))
        (λ done. stage₄-Cover pfn e)

  stage₂-Cover : (pfn : ℕ) → Edge limit pfn → Cover pfn limit (stage₂ pfn)
  unfolding frames
  stage₂-Cover pfn e =
      let under = e.under in
      let edge = e.edge in
      let (up_is, up_lo, up_hi) = up pfn 9 (omega arith) (omega arith) in
      let (top_is, top_lo, top_hi) = up pfn 18 (omega arith) (omega arith) in
      let (down_is, down_lo, down_hi) = down limit 9 (omega arith) (omega arith) in
      let to = min (round_up pfn pud_frames) last_pmd in
      stage-Cover pfn (round_up pfn pmd_frames) to limit page_size_2m stage₃
        (λ less. (
          omega arith,
          omega (arith, up_is),
          omega arith,
          stage₃-Cover to (record { under = omega arith; edge = omega arith }) omega arith,
        ))
        (λ done. stage₃-Cover pfn e omega arith)

-- A range of frames below 2^52, which is 2^64 bytes, is split into pieces that lie one behind the
-- other from the first frame to the limit; none is empty, and each begins and ends at a multiple of
-- its page size.
pub range_pieces-Cover :
    (first limit : ℕ)
    → first ≤ limit
    → limit < 2 ^ 52
    → Cover first limit (range_pieces first limit)
unfolding range_pieces frames
range_pieces-Cover first limit h small =
    let (up_is, up_lo, up_hi) = up first 9 (omega arith) (omega arith) in
    let to = min (round_up first pmd_frames) limit in
    stage-Cover first first to limit page_size_4k (stage₂ limit small)
      (λ less. (
        refl,
        omega arith,
        omega arith,
        stage₂-Cover limit small to (record { under = omega arith; edge = omega arith }),
      ))
      (λ done. stage₂-Cover limit small first (record { under = h; edge = omega arith }))
