-- ===== src/Align/Rounding.antt =====
-- `ROUND_UP` and `ROUND_DOWN` of include/cyanea/const.h.
use Prim.Native.Nat.{bit_and}
use cyanea.Prelude.{ℕ, ◌+◌, ◌-◌, ◌*◌, ◌/◌, ◌^◌, ◌≤◌, ◌<◌, ◌≡◌, ap, ◌∙◌, arith, add64, sub64}
use cyanea.Align.{align_kernel, bit_and_mask, masked, pow_pos, pow_le, pfn_down}

unfoldable pub round_up : ℕ → ℕ → ℕ
round_up x pow = align_kernel x pow

unfoldable pub round_down : ℕ → ℕ → ℕ
round_down x pow = align_kernel (sub64 x (sub64 pow 1)) pow

-- The multiple of 2^k at `x` or next above, if it is a word.
pub round_up-multiple :
    (x k : ℕ)
    → k < 64
    → x + 2 ^ k ≤ 2 ^ 64
    → (q : ℕ) × (round_up x (2 ^ k) ≡ q * 2 ^ k) × (x ≤ q * 2 ^ k) × (q * 2 ^ k < x + 2 ^ k)
unfolding round_up
round_up-multiple x k l fits =
    let some_bits = pow_pos k in
    let sum : add64 x (2 ^ k - 1) ≡ x + (2 ^ k - 1) = omega arith in
    let (q, e, lo, hi) = bit_and_mask 64 k (add64 x (2 ^ k - 1)) (omega arith) (omega arith) in
    (q, masked x k l ∙ e, omega (arith, sum, hi), omega (arith, sum, lo))

-- The multiple of 2^k at `x` or next below.
pub round_down-multiple :
    (x k : ℕ)
    → k < 64
    → x < 2 ^ 64
    → (q : ℕ) × (round_down x (2 ^ k) ≡ q * 2 ^ k) × (q * 2 ^ k ≤ x) × (x < q * 2 ^ k + 2 ^ k)
unfolding round_down
round_down-multiple x k l h =
    let some_bits = pow_pos k in
    let small : 2 ^ k ≤ 2 ^ 63 = pow_le k 63 (omega arith) in
    let mask : sub64 (2 ^ k) 1 ≡ 2 ^ k - 1 = omega arith in
    let back : add64 (sub64 x (sub64 (2 ^ k) 1)) (2 ^ k - 1) ≡ x = omega (arith, mask) in
    let (q, e, lo, hi) = bit_and_mask 64 k x h (omega arith) in
    (
      q,
      masked (sub64 x (sub64 (2 ^ k) 1)) k l ∙ ap (λ t. bit_and t (2 ^ 64 - 2 ^ k)) back ∙ e,
      lo,
      hi,
    )

pub pfn_down-div : (x : ℕ) → x < 2 ^ 64 → pfn_down x ≡ x / 2 ^ 12
unfolding pfn_down round_down
pfn_down-div x h =
    let (q, e, lo, hi) = round_down-multiple x 12 (omega arith) h in
    ap (λ t. t / 2 ^ 12) e ∙ omega (arith, lo, hi)
