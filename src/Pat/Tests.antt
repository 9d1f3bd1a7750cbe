-- ===== src/Pat/Tests.antt =====
-- Runs of arch/x86/ukernel/cache.c.
use cyanea.Prelude.{◌≡◌, refl, [], ◌∷◌, ok, ◌>>=◌, Returns}
use cyanea.Pat.{
  reset, mode_wt, mode_uc_minus, mode_wc, mode_wp, idx_pat2pte, pte2pat, cachemode2protval,
  pgprot2cachemode, update_cache_mode_entry, pat_get_cache_mode, slot_mode, modes_loop,
  init_cache_modes, pat_value, pat_bp_init,
}
use cyanea.Pat.Slots.{Decoded, init_cache_modes-Decoded}

-- The bits for WC, WP and WT, and what a reset has for them.
pat_bp_init_runs :
    (pat_bp_init reset >>= λ t. ok (
      cachemode2protval mode_wc t
      ∷ cachemode2protval mode_wp t
      ∷ cachemode2protval mode_wt t
      ∷ cachemode2protval mode_wc reset
      ∷ pgprot2cachemode 0x98 reset
      ∷ pgprot2cachemode 0x98 t
      ∷ []))
    ≡ ok (8 ∷ 0x88 ∷ 0x98 ∷ 16 ∷ 3 ∷ mode_wt ∷ [])
unfolding pat_bp_init init_cache_modes modes_loop update_cache_mode_entry slot_mode
    pat_get_cache_mode cachemode2protval pgprot2cachemode idx_pat2pte pte2pat reset
pat_bp_init_runs = refl

-- UC- gets the bits of the slot 6, which is the last one that has it.
uc_minus_runs : (pat_bp_init reset >>= λ t. ok (cachemode2protval mode_uc_minus t)) ≡ ok 0x90
unfolding pat_bp_init init_cache_modes modes_loop update_cache_mode_entry slot_mode
    pat_get_cache_mode cachemode2protval idx_pat2pte
uc_minus_runs = refl

init_cache_modes-Decoded_example : Returns (Decoded pat_value) (init_cache_modes pat_value reset)
unfolding slot_mode pat_get_cache_mode
init_cache_modes-Decoded_example = init_cache_modes-Decoded pat_value reset refl
