-- ===== src/Printf/RoundTrip.antt =====
-- `format_int` of uklib/io_buffer/vsnprintf.c, and `strtoull` of uklib/strtox.c, which reads back
-- what it writes.
use native.Mathlib.Nat.{
  div-add-mod', div-lt_iff_lt-mul, mod-lt, mod-eq_of_lt, mul-le-mul_left, pow-suc,
}
use cyanea.Prelude.{
  ℕ, zero, suc, ◌+◌, ◌*◌, ◌/◌, ◌%◌, ◌^◌, ◌≤◌, ◌<◌, ◌≡◌, refl, ap, ◌∙◌, inl, inr, Bool, true, false,
  List, [], ◌∷◌, ◌++◌, map, append-nil, none, some, arith, ltb, ◌==◌, every, every_sound, All,
  All-append, ok, Bool-cases,
}
use cyanea.Ctype.{isx, isdigit, isxdigit, isupper}
use cyanea.Strtox.{digit_value, strtoull}
use cyanea.Strtox.Value.{digits, value, in_range, strtoull-value}
use cyanea.Strtox.Guess.{guessed}
use cyanea.Printf.Number.{
  fl_hash, has, put_padding, digit_char, count_digits, store_digits, write_int, format_int,
}

-- The digits of a number, the first one first.
unfoldable pub figures : ℕ → ℕ → ℕ → List ℕ
figures zero base v = []
figures (suc n) base v = figures n base (v / base) ++ v % base ∷ []

map-append : (f : ℕ → ℕ) (xs ys : List ℕ) → map f (xs ++ ys) ≡ map f xs ++ map f ys
map-append f [] ys = refl
map-append f (x ∷ xs) ys = ap (λ l. f x ∷ l) (map-append f xs ys)

store_digits-figures :
    (upper : Bool) (n base v : ℕ)
    → store_digits upper n base v ≡ map (digit_char upper) (figures n base v)
unfolding store_digits figures
store_digits-figures upper zero base v = refl
store_digits-figures upper (suc n) base v =
    rw
      (
        store_digits-figures upper n base (v / base),
        map-append (digit_char upper) (figures n base (v / base)) (v % base ∷ []),
      )
      refl

-- A digit is read as it was written.
reads_back : Bool → ℕ → Bool
reads_back upper d = elim (digit_value (digit_char upper d)) [ none ↦ false | some v ↦ v == d ]

reads_back_all : (upper : Bool) → every (reads_back upper) 16 ≡ true
unfolding reads_back digit_value digit_char isdigit isxdigit isupper isx
reads_back_all true = refl
reads_back_all false = refl

digit_value-digit_char : (upper : Bool) (d : ℕ) → d < 16 → digit_value (digit_char upper d) ≡ some d
unfolding reads_back
digit_value-digit_char upper d h =
    let e : reads_back upper d ≡ true =
      every_sound (reads_back upper) 16 d (reads_back_all upper) h in
    ground arith

abbrev Digit : ℕ → ℕ → Type 0
Digit base d = d < base

figures-Digit : (n base v : ℕ) → 0 < base → All (Digit base) (figures n base v)
unfolding figures
figures-Digit zero base v h = tt
figures-Digit (suc n) base v h =
    All-append (Digit base) (figures n base (v / base)) (v % base ∷ [])
      (figures-Digit n base (v / base) h) (mod-lt v h, tt)

digits-map :
    (upper : Bool) (base : ℕ) (ds : List ℕ)
    → base ≤ 16
    → All (Digit base) ds
    → digits base (map (digit_char upper) ds) ≡ ds
unfolding digits
digits-map upper base [] small h = refl
digits-map upper base (d ∷ ds) small (p, h) =
    let e = digit_value-digit_char upper d (omega arith) in
    let f : ltb d base ≡ true = ground arith in
    rw (digits, e, f, digits-map upper base ds small h) refl

value_snoc :
    (base acc d : ℕ) (ds : List ℕ) → value base acc (ds ++ d ∷ []) ≡ value base acc ds * base + d
unfolding value
value_snoc base acc d [] = refl
value_snoc base acc d (x ∷ ds) = value_snoc base (acc * base + x) d ds

small_of : (v base : ℕ) → 0 < base → (v / base == 0) ≡ true → v < base
small_of v base pos last =
    let w = (div-lt_iff_lt-mul {k = base} {x = v} {y = 1} pos).0 (ground arith) in omega arith

value-figures :
    (fuel base v : ℕ)
    → 1 < base
    → v < 2 ^ fuel
    → value base 0 (figures (count_digits fuel base v) base v) ≡ v
unfolding value figures count_digits
value-figures zero base v h l = omega arith
value-figures (suc fuel) base v h l = elim (Bool-cases (v / base == 0)) [
  | inl last ↦
      let only_digit : 0 * base + v % base ≡ v % base = omega arith in
      let small : v < base = small_of v base (omega arith) last in
      rw (count_digits, last) (only_digit ∙ mod-eq_of_lt small)
  | inr more ↦
      let shorter : v / base < 2 ^ fuel =
        (div-lt_iff_lt-mul {k = base} (omega arith)).1
          (omega (arith, pow-suc 2 fuel, mul-le-mul_left (2 ^ fuel) h)) in
      let one_more = count_digits fuel base (v / base) in
      rw (count_digits, more)
        (value_snoc base 0 (v % base) (figures one_more base (v / base))
          ∙ ap (λ t. t * base + v % base) (value-figures fuel base (v / base) h shorter)
          ∙ div-add-mod' v base)
]

count_digits_le : (fuel base v : ℕ) → count_digits fuel base v ≤ fuel
unfolding count_digits
count_digits_le zero base v = omega arith
count_digits_le (suc fuel) base v = ground (arith, count_digits_le fuel base (v / base))

-- What is written for a number without flags, width or precision.
abbrev pub plain_digits : ℕ → ℕ → List ℕ
plain_digits base v = map (digit_char false) (figures (count_digits 64 base v) base v)

format_int-plain : (base v : ℕ) → format_int v 0 base 0 none ≡ ok (plain_digits base v)
unfolding format_int write_int put_padding has
format_int-plain base v =
    let room : ltb 64 (count_digits 64 base v) ≡ false =
      ground (arith, count_digits_le 64 base v) in
    let no_padding : ltb (count_digits 64 base v) 0 ≡ false = ground arith in
    rw (room, store_digits-figures false (count_digits 64 base v) base v)
      (rw (put_padding, no_padding) (ap ok (append-nil (plain_digits base v))))

-- A leading 0x, and the digits to base 16.
abbrev pub hex_digits : ℕ → List ℕ
hex_digits v = b'0' ∷ b'x' ∷ plain_digits 16 v

format_int-hex : (v : ℕ) → format_int v fl_hash 16 0 none ≡ ok (hex_digits v)
unfolding format_int write_int put_padding has
format_int-hex v =
    let room : ltb 64 (count_digits 64 16 v) ≡ false = ground (arith, count_digits_le 64 16 v) in
    let no_padding : ltb (count_digits 64 16 v + 2) 0 ≡ false = ground arith in
    rw (room, store_digits-figures false (count_digits 64 16 v) 16 v)
      (rw (put_padding, no_padding) (ap ok (append-nil (hex_digits v))))

-- The digits are read back.
value-plain :
    (base v : ℕ)
    → 1 < base
    → base ≤ 16
    → v < 2 ^ 64
    → in_range (value base 0 (digits base (plain_digits base v))) ≡ some v
value-plain base v two small fits =
    let n = count_digits 64 base v in
    let same =
      digits-map false base (figures n base v) small (figures-Digit n base v (omega arith)) in
    rw (same, value-figures 64 base v two fits) (ground arith)

-- What `format_int` writes for a 64-bit number, without flags, width or precision, `strtoull` reads
-- back, to every base from 2 to 15; and to base 16, where the flag `#` writes a leading 0x,
-- `strtoull` reads it back with the base left open.
pub strtoull-format_int :
    (scratch : List ℕ) (v base : ℕ)
    → v < 2 ^ 64
    → 1 < base
    → base < 16
    → ((bytes : List ℕ) × (format_int v 0 base 0 none ≡ ok bytes)
        × (strtoull scratch bytes base ≡ ok (some v)))
      × ((bytes : List ℕ) × (format_int v fl_hash 16 0 none ≡ ok bytes)
          × (strtoull scratch bytes 0 ≡ ok (some v)))
unfolding guessed
strtoull-format_int scratch v base fits two small =
    let fixed : (base == 0) ≡ false = ground arith in
    (
      (
        plain_digits base v,
        format_int-plain base v,
        strtoull-value scratch (plain_digits base v) base small
            ∙ rw fixed (ap ok (value-plain base v two (omega arith) fits)),
      ),
      (
        hex_digits v,
        format_int-hex v,
        strtoull-value scratch (hex_digits v) 0 (omega arith)
            ∙ ap ok (value-plain 16 v (omega arith) (omega arith) fits),
      ),
    )
