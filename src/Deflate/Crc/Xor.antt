-- ===== src/Deflate/Crc/Xor.antt =====
-- The laws of `bit_xor`, for the checksum of efi-boot/deflate.c.
use Prim.Native.Nat.{bit_xor, bit_xor-bitwise, digits, differ}
use native.Mathlib.Nat.{pow-suc}
use cyanea.Prelude.{
  ℕ, zero, suc, ◌+◌, ◌-◌, ◌*◌, ◌/◌, ◌%◌, ◌^◌, ◌<◌, ◌≤◌, ◌≡◌, refl, sym, ap, ◌∙◌, inl, inr, arith,
  ◌==◌, Bool-cases,
}

-- The digits of `bit_xor`, lowest first, where `n` of them are computed.
abbrev low : ℕ → ℕ → ℕ → ℕ
low n x y = digits (λ b. b) differ n x y

low-zero : (n y : ℕ) → low n 0 y ≡ y
low-zero zero y = refl
low-zero (suc n) y = refl

low-suc : (n x y : ℕ) → x ≤ n → low (suc n) x y ≡ low n x y
low-suc n zero y h = rw (low-zero n y)
low-suc zero (suc x) y h = absurd (omega arith)
low-suc (suc n) (suc x) y h =
    ap (λ t. t * 2 + differ (suc x % 2) (y % 2)) (low-suc n (suc x / 2) (y / 2) (omega arith))

low-add : (k n x y : ℕ) → x ≤ n → low (k + n) x y ≡ low n x y
low-add zero n x y h = let none_more : 0 + n ≡ n = omega arith in ap (λ t. low t x y) none_more
low-add (suc k) n x y h =
    let one_more : suc k + n ≡ suc (k + n) = omega arith in
    ap (λ t. low t x y) one_more ∙ low-suc (k + n) x y (omega arith) ∙ low-add k n x y h

low-bit_xor : (n x y : ℕ) → x ≤ n → low n x y ≡ bit_xor x y
low-bit_xor n x y h =
    let split : n ≡ (n - x) + x = omega arith in
    ap (λ t. low t x y) split ∙ low-add (n - x) x x y (omega arith) ∙ sym (bit_xor-bitwise x y)

pub zero-bit_xor : (y : ℕ) → bit_xor 0 y ≡ y
zero-bit_xor y = sym (low-bit_xor 0 0 y (omega arith))

differ_at : (x y a b : ℕ) → x % 2 ≡ a → y % 2 ≡ b → differ (x % 2) (y % 2) ≡ differ a b
differ_at x y a b e f = rw (e, f) refl

differ_mod : (x y : ℕ) → differ (x % 2) (y % 2) ≡ (x + y) % 2
differ_mod x y = elim (Bool-cases (x % 2 == 0)) [
  | inl e ↦ elim (Bool-cases (y % 2 == 0)) [
    | inl f ↦ differ_at x y 0 0 (ground arith) (ground arith) ∙ ground arith
    | inr f ↦ differ_at x y 0 1 (ground arith) (ground arith) ∙ ground arith
  ]
  | inr e ↦ elim (Bool-cases (y % 2 == 0)) [
    | inl f ↦ differ_at x y 1 0 (ground arith) (ground arith) ∙ ground arith
    | inr f ↦ differ_at x y 1 1 (ground arith) (ground arith) ∙ ground arith
  ]
]

pub bit_xor_step : (x y : ℕ) → bit_xor x y ≡ (x + y) % 2 + bit_xor (x / 2) (y / 2) * 2
bit_xor_step zero y = omega (arith, zero-bit_xor y, zero-bit_xor (y / 2))
bit_xor_step (suc x) y =
    let rest = low-bit_xor x (suc x / 2) (y / 2) (omega arith) in
    omega (arith, bit_xor-bitwise (suc x) y, rest, differ_mod (suc x) y)

pub bit_xor-half : (x y : ℕ) → bit_xor x y / 2 ≡ bit_xor (x / 2) (y / 2)
bit_xor-half x y = omega (arith, bit_xor_step x y)

pub bit_xor-odd : (x y : ℕ) → bit_xor x y % 2 ≡ (x + y) % 2
bit_xor-odd x y = omega (arith, bit_xor_step x y)

-- The laws of `bit_xor`, for numbers up to `n`.
comm_below : (n x y : ℕ) → x + y ≤ n → bit_xor x y ≡ bit_xor y x
comm_below zero x y h = let e : x ≡ 0 = omega arith in let f : y ≡ 0 = omega arith in rw (e, f) refl
comm_below (suc n) x y h =
    let smaller : x / 2 + y / 2 ≤ n = omega arith in
    omega (arith, bit_xor_step x y, bit_xor_step y x, comm_below n (x / 2) (y / 2) smaller)

pub bit_xor_comm : (x y : ℕ) → bit_xor x y ≡ bit_xor y x
bit_xor_comm x y = comm_below (x + y) x y (omega arith)

assoc_below : (n x y z : ℕ) → x + y + z ≤ n → bit_xor (bit_xor x y) z ≡ bit_xor x (bit_xor y z)
assoc_below zero x y z h =
    let e : x ≡ 0 = omega arith in
    let f : y ≡ 0 = omega arith in let g : z ≡ 0 = omega arith in rw (e, f, g) refl
assoc_below (suc n) x y z h =
    let smaller : x / 2 + y / 2 + z / 2 ≤ n = omega arith in
    omega (
      arith,
      bit_xor_step (bit_xor x y) z,
      bit_xor_step x (bit_xor y z),
      bit_xor-odd x y,
      bit_xor-odd y z,
      ap (λ t. bit_xor t (z / 2)) (bit_xor-half x y),
      ap (bit_xor (x / 2)) (bit_xor-half y z),
      assoc_below n (x / 2) (y / 2) (z / 2) smaller,
    )

pub bit_xor_assoc : (x y z : ℕ) → bit_xor (bit_xor x y) z ≡ bit_xor x (bit_xor y z)
bit_xor_assoc x y z = assoc_below (x + y + z) x y z (omega arith)

self_below : (n x : ℕ) → x ≤ n → bit_xor x x ≡ 0
self_below zero x h = let e : x ≡ 0 = omega arith in rw e refl
self_below (suc n) x h =
    let smaller : x / 2 ≤ n = omega arith in
    omega (arith, bit_xor_step x x, self_below n (x / 2) smaller)

pub bit_xor_self : (x : ℕ) → bit_xor x x ≡ 0
bit_xor_self x = self_below x x (omega arith)

pub bit_xor-zero : (x : ℕ) → bit_xor x 0 ≡ x
bit_xor-zero x = bit_xor_comm x 0 ∙ zero-bit_xor x

pub bit_xor_lt : (n x y : ℕ) → x < 2 ^ n → y < 2 ^ n → bit_xor x y < 2 ^ n
bit_xor_lt zero x y hx hy =
    let x_zero : x ≡ 0 = omega arith in
    let y_zero : y ≡ 0 = omega arith in
    let e : bit_xor x y ≡ bit_xor 0 0 = rw (x_zero, y_zero) refl in omega (arith, e, zero-bit_xor 0)
bit_xor_lt (suc n) x y hx hy =
    let double = pow-suc 2 n in
    let less = bit_xor_lt n (x / 2) (y / 2) (omega (arith, double)) (omega (arith, double)) in
    omega (arith, double, less, bit_xor_step x y)
