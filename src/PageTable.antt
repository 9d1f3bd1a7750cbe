-- ===== src/PageTable.antt =====
-- The direct mapping of arch/x86/ukernel/mm.c: ranges of memory are split into pages of three
-- sizes, which are entered into the tables of four levels.
pub mod Split
pub mod Tables
pub mod Kept
pub mod Levels
pub mod Leaf
pub mod Direct
pub mod Reserve
mod Tests
use cyanea.Prelude.{
  ℕ, zero, suc, ◌+◌, ◌-◌, ◌*◌, ◌/◌, ◌%◌, ◌^◌, min, max, bit_and, bit_or, Bool, true, false, not,
  ◌&&◌, List, [], ◌∷◌, none, some, ltb, leb, ◌==◌, if◌then◌else◌, length, add64, sub64, Run, ok,
  halt, timeout, ◌>>=◌,
}
use cyanea.Align.{page_shift, page_size, pfn_down}
use cyanea.Align.Rounding.{round_up, round_down}
use cyanea.Memblock.Alloc.{clamp, PfnRange, next_mem_pfn_range}
use cyanea.Memblock.Regions.{Memblock, no_node}

-- `enum page_size`, but for the values that no call passes.
pub data PageSize : Type 0 where
  page_size_4k : PageSize
  page_size_2m : PageSize
  page_size_1g : PageSize

-- A call of `physical_mapping_init`, in page frames.
pub record Piece : Type 0 where
  pub start_pfn : ℕ
  pub end_pfn : ℕ
  pub ps : PageSize

-- `PFN_DOWN(PMD_SIZE)` and `PFN_DOWN(PUD_SIZE)`
abbrev pub pmd_frames : ℕ
pmd_frames = 2 ^ 9

abbrev pub pud_frames : ℕ
pud_frames = 2 ^ 18

-- `if (start_pfn < end_pfn) { physical_mapping_init(...); pfn = end_pfn; }`, and what follows.
unfoldable pub stage : ℕ → ℕ → ℕ → PageSize → (ℕ → List Piece) → List Piece
stage pfn start_pfn end_pfn ps rest =
    if ltb start_pfn end_pfn
    then record { start_pfn = start_pfn; end_pfn = end_pfn; ps = ps } ∷ rest end_pfn
    else rest pfn

-- The calls that the body of `init_range_memory_mapping` makes, from the first frame to the limit.
unfoldable pub range_pieces : ℕ → ℕ → List Piece
range_pieces first limit_pfn =
    let to_pmd : ℕ → ℕ = λ pfn. round_up pfn pmd_frames in
    let to_pud : ℕ → ℕ = λ pfn. round_up pfn pud_frames in
    let last_pmd = round_down limit_pfn pmd_frames in
    let last_pud = round_down limit_pfn pud_frames in
    stage first first (min (to_pmd first) limit_pfn) page_size_4k (λ pfn₁.
      stage pfn₁ (to_pmd pfn₁) (min (to_pud pfn₁) last_pmd) page_size_2m (λ pfn₂.
        stage pfn₂ (to_pud pfn₂) last_pud page_size_1g (λ pfn₃.
          stage pfn₃ (to_pmd pfn₃) last_pmd page_size_2m
            (λ pfn₄. stage pfn₄ pfn₄ limit_pfn page_size_4k (λ pfn₅. [])))))
