-- ===== src/Bits.antt =====
-- Laws of `|` and `&` on natural numbers: bits that are put above others, and a mask of low bits.
use Prim.Native.Nat.{bit_or-bitwise, digits}
use native.Mathlib.Nat.{
  pow-suc, mul_assoc, mul_right_comm, div-add-mod', add-mul-mod_self_right, mod-eq_of_lt, mod-lt,
}
use cyanea.Prelude.{
  ℕ, zero, suc, ◌+◌, ◌-◌, ◌*◌, ◌/◌, ◌%◌, ◌^◌, ◌≤◌, ◌<◌, ◌≡◌, refl, sym, ap, ◌∙◌, max, bit_and,
  bit_or, arith,
}
use cyanea.Align.{bit_and_step, bit_and-zero, pow_pos}

-- The digits of `bit_or`, lowest first, where `n` of them are computed.
abbrev low : ℕ → ℕ → ℕ → ℕ
low n x y = digits (λ b. b) max n x y

low-zero : (n y : ℕ) → low n 0 y ≡ y
low-zero zero y = refl
low-zero (suc n) y = refl

low-suc : (n x y : ℕ) → x ≤ n → low (suc n) x y ≡ low n x y
low-suc n zero y h = rw (low-zero n y)
low-suc zero (suc x) y h = absurd (omega arith)
low-suc (suc n) (suc x) y h =
    ap (λ t. t * 2 + max (suc x % 2) (y % 2)) (low-suc n (suc x / 2) (y / 2) (omega arith))

low-add : (k n x y : ℕ) → x ≤ n → low (k + n) x y ≡ low n x y
low-add zero n x y h = let none_more : 0 + n ≡ n = omega arith in ap (λ t. low t x y) none_more
low-add (suc k) n x y h =
    let one_more : suc k + n ≡ suc (k + n) = omega arith in
    ap (λ t. low t x y) one_more ∙ low-suc (k + n) x y (omega arith) ∙ low-add k n x y h

low-bit_or : (n x y : ℕ) → x ≤ n → low n x y ≡ bit_or x y
low-bit_or n x y h =
    let split : n ≡ (n - x) + x = omega arith in
    ap (λ t. low t x y) split ∙ low-add (n - x) x x y (omega arith) ∙ sym (bit_or-bitwise x y)

zero-bit_or : (y : ℕ) → bit_or 0 y ≡ y
zero-bit_or y = sym (low-bit_or 0 0 y (omega arith))

bit_or_step : (x y : ℕ) → bit_or x y ≡ max (x % 2) (y % 2) + bit_or (x / 2) (y / 2) * 2
bit_or_step zero y = omega (arith, zero-bit_or y, zero-bit_or (y / 2))
bit_or_step (suc x) y =
    let rest = low-bit_or x (suc x / 2) (y / 2) (omega arith) in
    omega (arith, bit_or-bitwise (suc x) y, rest)

-- Bits above the `k` lowest ones are added.
pub bit_or_above : (k x b : ℕ) → x < 2 ^ k → bit_or x (b * 2 ^ k) ≡ x + b * 2 ^ k
bit_or_above zero x b h =
    let none_below : x ≡ 0 = omega arith in
    let one : b * 2 ^ 0 ≡ b = omega arith in rw (none_below, one) (omega (arith, zero-bit_or b))
bit_or_above (suc k) x b h =
    let twice : b * 2 ^ suc k ≡ b * 2 ^ k * 2 =
      ap (λ t. b * t) (pow-suc 2 k) ∙ sym (mul_assoc b (2 ^ k) 2) in
    let half : b * 2 ^ suc k / 2 ≡ b * 2 ^ k = omega (arith, twice) in
    omega (
      arith,
      bit_or_step x (b * 2 ^ suc k),
      ap (bit_or (x / 2)) half,
      bit_or_above k (x / 2) b (omega (arith, pow-suc 2 k)),
      twice,
    )

-- A mask of `n` bits takes the remainder.
pub bit_and-low : (n x : ℕ) → bit_and x (2 ^ n - 1) ≡ x % 2 ^ n
bit_and-low zero x = omega (arith, bit_and-zero x x (omega arith))
bit_and-low (suc n) x =
    let double = pow-suc 2 n in
    let pos = pow_pos n in
    let half : (2 ^ suc n - 1) / 2 ≡ 2 ^ n - 1 = omega (arith, double, pos) in
    let odd : (2 ^ suc n - 1) % 2 ≡ 1 = omega (arith, double, pos) in
    let q = x / 2 / 2 ^ n in
    let r = x % 2 + x / 2 % 2 ^ n * 2 in
    let twice : q * 2 ^ suc n ≡ q * 2 ^ n * 2 =
      ap (λ t. q * t) double ∙ sym (mul_assoc q (2 ^ n) 2) in
    let whole : x ≡ r + q * 2 ^ suc n = omega (arith, twice, div-add-mod' (x / 2) (2 ^ n)) in
    let split : x % 2 ^ suc n ≡ r =
      ap (λ t. t % 2 ^ suc n) whole
      ∙ add-mul-mod_self_right r q (2 ^ suc n)
      ∙ mod-eq_of_lt (omega (arith, double, mod-lt (x / 2) pos)) in
    omega (
      arith,
      bit_and_step x (2 ^ suc n - 1),
      ap (bit_and (x / 2)) half,
      odd,
      bit_and-low n (x / 2),
      split,
    )

pub pow_plus : (a b : ℕ) → 2 ^ (a + b) ≡ 2 ^ a * 2 ^ b
pow_plus zero b = let same : 0 + b ≡ b = omega arith in rw same (omega arith)
pow_plus (suc a) b =
    let next : suc a + b ≡ suc (a + b) = omega arith in
    ap (λ t. 2 ^ t) next
    ∙ pow-suc 2 (a + b)
    ∙ ap (λ t. t * 2) (pow_plus a b)
    ∙ mul_right_comm (2 ^ a) (2 ^ b) 2
    ∙ ap (λ t. t * 2 ^ b) (sym (pow-suc 2 a))
