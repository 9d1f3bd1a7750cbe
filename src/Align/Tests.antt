-- ===== src/Align/Tests.antt =====
-- Runs of the alignment macros of include/uapi/cyanea/const.h.
use cyanea.Prelude.{ℕ, ◌+◌, ◌*◌, ◌^◌, ◌≤◌, ◌<◌, ◌≡◌, ◌⊎◌, refl, arith}
use cyanea.Align.{align_kernel, align_kernel_lem}

align_kernel_lem_example :
    (q : ℕ) × (align_kernel 5000 (2 ^ 12) ≡ q * 2 ^ 12)
    × ((q ≡ 0) ⊎ ((5000 ≤ q * 2 ^ 12) × (q * 2 ^ 12 < 5000 + 2 ^ 12)))
align_kernel_lem_example = align_kernel_lem 5000 12 (omega arith) (omega arith)

aligned_runs : align_kernel 5000 (2 ^ 12) ≡ 8192
unfolding align_kernel
aligned_runs = refl
