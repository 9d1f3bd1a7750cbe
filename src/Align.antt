-- ===== src/Align.antt =====
-- The alignment macros of include/uapi/cyanea/const.h and include/cyanea/const.h, and the page
-- numbers that ukernel/memblock.c makes with them, on 64-bit words.
mod Tests
pub mod Rounding
use Prim.Native.Nat.{zero, suc, min, digits, bit_and, bit_and-bitwise}
use native.Mathlib.Nat.{pow-suc}
use cyanea.Prelude.{
  ℕ, ◌+◌, ◌-◌, ◌*◌, ◌/◌, ◌%◌, ◌^◌, ◌≤◌, ◌<◌, ◌≡◌, refl, sym, ap, ◌∙◌, ◌⊎◌, inl, inr, arith, add64,
  sub64,
}

-- `__ALIGN_KERNEL_MASK(x, a - 1)`: `(x + mask) & ~mask`
unfoldable pub align_kernel : ℕ → ℕ → ℕ
align_kernel x a = let mask = sub64 a 1 in bit_and (add64 x mask) (2 ^ 64 - 1 - mask)

abbrev pub page_shift : ℕ
page_shift = 12

abbrev pub page_size : ℕ
page_size = 2 ^ 12

-- `ROUND_UP(x, PAGE_SIZE) >> PAGE_SHIFT` and `ROUND_DOWN(x, PAGE_SIZE) >> PAGE_SHIFT`
unfoldable pub pfn_up : ℕ → ℕ
unfolding align_kernel
pfn_up x = align_kernel x page_size / 2 ^ page_shift

unfoldable pub pfn_down : ℕ → ℕ
unfolding align_kernel
pfn_down x = align_kernel (sub64 x (sub64 page_size 1)) page_size / 2 ^ page_shift

-- The digits of `bit_and`, lowest first, where `n` of them are computed.
abbrev low : ℕ → ℕ → ℕ → ℕ
low n x y = digits (λ _. 0) min n x y

low-zero : (n y : ℕ) → low n 0 y ≡ 0
low-zero zero y = refl
low-zero (suc n) y = refl

-- A number has fewer digits than its value.
low-suc : (n x y : ℕ) → x ≤ n → low (suc n) x y ≡ low n x y
low-suc n zero y h = rw (low-zero n y)
low-suc zero (suc x) y h = absurd (omega arith)
low-suc (suc n) (suc x) y h =
    ap (λ t. t * 2 + min (suc x % 2) (y % 2)) (low-suc n (suc x / 2) (y / 2) (omega arith))

low-add : (k n x y : ℕ) → x ≤ n → low (k + n) x y ≡ low n x y
low-add zero n x y h = let none_more : 0 + n ≡ n = omega arith in ap (λ t. low t x y) none_more
low-add (suc k) n x y h =
    let one_more : suc k + n ≡ suc (k + n) = omega arith in
    ap (λ t. low t x y) one_more ∙ low-suc (k + n) x y (omega arith) ∙ low-add k n x y h

low-bit_and : (n x y : ℕ) → x ≤ n → low n x y ≡ bit_and x y
low-bit_and n x y h =
    let split : n ≡ (n - x) + x = omega arith in
    ap (λ t. low t x y) split ∙ low-add (n - x) x x y (omega arith) ∙ sym (bit_and-bitwise x y)

pub zero-bit_and : (y : ℕ) → bit_and 0 y ≡ 0
zero-bit_and y = sym (low-bit_and 0 0 y (omega arith))

pub bit_and_step : (x y : ℕ) → bit_and x y ≡ min (x % 2) (y % 2) + bit_and (x / 2) (y / 2) * 2
bit_and_step zero y = omega (arith, zero-bit_and y, zero-bit_and (y / 2))
bit_and_step (suc x) y =
    let rest = low-bit_and x (suc x / 2) (y / 2) (omega arith) in
    omega (arith, bit_and-bitwise (suc x) y, rest)

pub bit_and-zero : (n x : ℕ) → x < suc n → bit_and x 0 ≡ 0
bit_and-zero n zero h = zero-bit_and 0
bit_and-zero zero (suc x) h = omega arith
bit_and-zero (suc n) (suc x) h =
    omega (arith, bit_and_step (suc x) 0, bit_and-zero n (suc x / 2) (omega arith))

pub bit_and_le : (n x y : ℕ) → y < suc n → bit_and x y ≤ y
bit_and_le n x zero h = omega (arith, bit_and-zero x x (omega arith))
bit_and_le zero x (suc y) h = omega arith
bit_and_le (suc n) x (suc y) h =
    omega (arith, bit_and_step x (suc y), bit_and_le n (x / 2) (suc y / 2) (omega arith))

pub pow_pos : (k : ℕ) → 0 < 2 ^ k
pow_pos zero = omega arith
pow_pos (suc k) = omega (arith, pow-suc 2 k, pow_pos k)

pub pow_le : (k w : ℕ) → k ≤ w → 2 ^ k ≤ 2 ^ w
pow_le zero w h = pow_pos w
pow_le (suc k) zero h = absurd (omega arith)
pow_le (suc k) (suc w) h = omega (arith, pow-suc 2 k, pow-suc 2 w, pow_le k w (omega arith))

-- `z & ~(2^k - 1)` on words of `w` bits is the multiple of 2^k at `z` or next below.
pub bit_and_mask :
    (w k z : ℕ)
    → z < 2 ^ w
    → k ≤ w
    → (q : ℕ) × (bit_and z (2 ^ w - 2 ^ k) ≡ q * 2 ^ k) × (q * 2 ^ k ≤ z) × (z < q * 2 ^ k + 2 ^ k)
bit_and_mask zero zero zero h l = (0, zero-bit_and (2 ^ 0 - 2 ^ 0), omega arith, omega arith)
bit_and_mask zero zero (suc z) h l = absurd (omega arith)
bit_and_mask zero (suc k) z h l = absurd (omega arith)
bit_and_mask (suc w) zero z h l =
    let (q, e, lo, hi) = bit_and_mask w zero (z / 2) (omega (arith, pow-suc 2 w)) (omega arith) in
    let half : (2 ^ suc w - 1) / 2 ≡ 2 ^ w - 1 = omega (arith, pow-suc 2 w, pow_pos w) in
    let odd : (2 ^ suc w - 1) % 2 ≡ 1 = omega (arith, pow-suc 2 w, pow_pos w) in
    (
      z,
      omega (arith, bit_and_step z (2 ^ suc w - 1), ap (bit_and (z / 2)) half, odd, e, lo, hi),
      omega arith,
      omega arith,
    )
bit_and_mask (suc w) (suc k) z h l =
    let (q, e, lo, hi) = bit_and_mask w k (z / 2) (omega (arith, pow-suc 2 w)) (omega arith) in
    let half : (2 ^ suc w - 2 ^ suc k) / 2 ≡ 2 ^ w - 2 ^ k =
      omega (arith, pow-suc 2 w, pow-suc 2 k) in
    let even : (2 ^ suc w - 2 ^ suc k) % 2 ≡ 0 = omega (arith, pow-suc 2 w, pow-suc 2 k) in
    let twice : q * 2 ^ suc k ≡ q * (2 ^ k * 2) = ap (λ t. q * t) (pow-suc 2 k) in
    (
      q,
      omega (
        arith,
        bit_and_step z (2 ^ suc w - 2 ^ suc k),
        ap (bit_and (z / 2)) half,
        even,
        twice,
        e,
      ),
      omega (arith, twice, lo),
      omega (arith, twice, pow-suc 2 k, hi),
    )

pub masked :
    (x k : ℕ) → k < 64 → align_kernel x (2 ^ k) ≡ bit_and (add64 x (2 ^ k - 1)) (2 ^ 64 - 2 ^ k)
unfolding align_kernel
masked x k l =
    let small : 2 ^ k ≤ 2 ^ 63 = pow_le k 63 (omega arith) in
    let some_bits = pow_pos k in
    let mask : sub64 (2 ^ k) 1 ≡ 2 ^ k - 1 = omega arith in
    let high : 2 ^ 64 - 1 - (2 ^ k - 1) ≡ 2 ^ 64 - 2 ^ k = omega arith in
    ap (λ t. bit_and (add64 x t) (2 ^ 64 - 1 - t)) mask ∙ ap (bit_and (add64 x (2 ^ k - 1))) high

next_multiple :
    (x p q : ℕ)
    → x < 2 ^ 64
    → 0 < p
    → p ≤ 2 ^ 63
    → q * p ≤ add64 x (p - 1)
    → add64 x (p - 1) < q * p + p
    → (q ≡ 0) ⊎ ((x ≤ q * p) × (q * p < x + p))
next_multiple x p zero h some_bits small lo hi = inl refl
next_multiple x p (suc q) h some_bits small lo hi =
    let more : suc q * p ≡ q * p + p = omega arith in inr (omega arith, omega arith)

-- For a 64-bit `x` and an alignment 2^k with k below 64 the result is a multiple of the alignment,
-- and it is 0, as where the sum wraps, or it is at least `x` and less than `x` and the alignment.
pub align_kernel_lem :
    (x k : ℕ)
    → x < 2 ^ 64
    → k < 64
    → (q : ℕ) × (align_kernel x (2 ^ k) ≡ q * 2 ^ k)
      × ((q ≡ 0) ⊎ ((x ≤ q * 2 ^ k) × (q * 2 ^ k < x + 2 ^ k)))
align_kernel_lem x k h l = go (bit_and_mask 64 k (add64 x (2 ^ k - 1)) (omega arith) (omega arith))
  where
    go :
        (q : ℕ) × (bit_and (add64 x (2 ^ k - 1)) (2 ^ 64 - 2 ^ k) ≡ q * 2 ^ k)
          × (q * 2 ^ k ≤ add64 x (2 ^ k - 1))
          × (add64 x (2 ^ k - 1) < q * 2 ^ k + 2 ^ k)
        → (q : ℕ) × (align_kernel x (2 ^ k) ≡ q * 2 ^ k)
          × ((q ≡ 0) ⊎ ((x ≤ q * 2 ^ k) × (q * 2 ^ k < x + 2 ^ k)))
    go (q, e, lo, hi) = (
      q,
      masked x k l ∙ e,
      next_multiple x (2 ^ k) q h (pow_pos k) (pow_le k 63 (omega arith)) lo hi,
    )
