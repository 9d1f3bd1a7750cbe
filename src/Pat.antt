-- ===== src/Pat.antt =====
-- The page attribute table of arch/x86/ukernel/cache.c: which bits of an entry of a page table stand
-- for a cache mode.
pub mod Slots
mod Tests
use cyanea.Prelude.{
  ℕ, zero, suc, ◌+◌, ◌-◌, ◌*◌, ◌/◌, ◌^◌, bit_and, bit_or, Bool, true, false, not, ◌&&◌, ◌==◌,
  if◌then◌else◌, Run, ok, halt, ◌>>=◌,
}

-- `_PAGE_CACHE_MODE_WB` and so on.
abbrev pub mode_wb : ℕ
mode_wb = 0

abbrev pub mode_wt : ℕ
mode_wt = 1

abbrev pub mode_uc_minus : ℕ
mode_uc_minus = 2

abbrev pub mode_uc : ℕ
mode_uc = 3

abbrev pub mode_wc : ℕ
mode_wc = 4

abbrev pub mode_wp : ℕ
mode_wp = 5

-- `__idx_pat2pte` and `__pte2pat`
unfoldable pub idx_pat2pte : ℕ → ℕ
idx_pat2pte i = bit_or (bit_or (bit_and i 4 * 2 ^ 5) (bit_and i 2 * 2 ^ 3)) (bit_and i 1 * 2 ^ 3)

unfoldable pub pte2pat : ℕ → ℕ
pte2pat m = bit_or (bit_or (bit_and (m / 2 ^ 5) 4) (bit_and (m / 2 ^ 3) 2)) (bit_and (m / 2 ^ 3) 1)

-- `_PAGE_CACHE_MASK`
abbrev pub page_cache_mask : ℕ
page_cache_mask = 2 ^ 3 + 2 ^ 4 + 2 ^ 7

-- `__cachemode_to_pte` and `__pat_idx_to_cachemode`, each of which has 8 entries.
pub record Pat : Type 0 where
  pub cachemode_to_pte : ℕ → ℕ
  pub pat_idx_to_cachemode : ℕ → ℕ

-- The tables behind a reset.
unfoldable pub reset : Pat
reset = record {
  cachemode_to_pte = λ mode.
      if mode == mode_wb
      then idx_pat2pte 0
      else if mode == mode_wt
      then idx_pat2pte 1
      else if mode == mode_uc_minus
      then idx_pat2pte 2
      else if mode == mode_uc
      then idx_pat2pte 3
      else if mode == mode_wc
      then idx_pat2pte 2
      else if mode == mode_wp
      then idx_pat2pte 2
      else 0;
  pat_idx_to_cachemode = λ idx. bit_and idx 3;
}

unfoldable pub cachemode2protval : ℕ → Pat → ℕ
cachemode2protval pcm t = if pcm == mode_wb then 0 else t.cachemode_to_pte pcm

unfoldable pub pgprot2cachemode : ℕ → Pat → ℕ
pgprot2cachemode pgprot t =
    let masked = bit_and pgprot page_cache_mask in
    if masked == 0 then mode_wb else t.pat_idx_to_cachemode (pte2pat masked)

unfoldable pub update_cache_mode_entry : ℕ → ℕ → Pat → Run Pat
update_cache_mode_entry idx cache t =
    if idx == 0 && not (cache == mode_wb)
    then halt
    else ok (record {
      cachemode_to_pte = λ mode. if mode == cache then idx_pat2pte idx else t.cachemode_to_pte mode;
      pat_idx_to_cachemode = λ i. if i == idx then cache else t.pat_idx_to_cachemode i;
    })

-- From `X86_MEMTYPE_` to `_PAGE_CACHE_MODE_`.
unfoldable pub pat_get_cache_mode : ℕ → ℕ
pat_get_cache_mode pat_val =
    if pat_val == 0
    then mode_uc
    else if pat_val == 1
    then mode_wc
    else if pat_val == 4
    then mode_wt
    else if pat_val == 5
    then mode_wp
    else if pat_val == 6
    then mode_wb
    else if pat_val == 7
    then mode_uc_minus
    else mode_wb

-- `pat_get_cache_mode((pat >> (i * 8)) & 7, ...)`
unfoldable pub slot_mode : ℕ → ℕ → ℕ
slot_mode pat i = pat_get_cache_mode (bit_and (pat / 2 ^ (i * 8)) 7)

-- The loop of `init_cache_modes`, with so many entries to go.
unfoldable pub modes_loop : ℕ → ℕ → ℕ → Pat → Run Pat
modes_loop zero i pat t = ok t
modes_loop (suc left) i pat t =
    update_cache_mode_entry i (slot_mode pat i) t >>= modes_loop left (i + 1) pat

unfoldable pub init_cache_modes : ℕ → Pat → Run Pat
init_cache_modes pat t = modes_loop 8 0 pat t

-- `PAT_VALUE(WB, WC, UC_MINUS, UC, WB, WP, UC_MINUS, WT)`
abbrev pub pat_value : ℕ
pat_value =
    6 + 1 * 2 ^ 8 + 7 * 2 ^ 16 + 0 * 2 ^ 24 + 6 * 2 ^ 32 + 5 * 2 ^ 40 + 7 * 2 ^ 48 + 4 * 2 ^ 56

unfoldable pub pat_bp_init : Pat → Run Pat
pat_bp_init t = init_cache_modes pat_value t
