-- ===== src/Console/Setup.antt =====
-- `console_setup` of drivers/console.c: what an option of the command line asks for.
use native.Mathlib.Nat.{pow-suc, pow-le-pow_right, mul-le-mul_left}
use cyanea.Prelude.{
  ℕ, suc, ◌+◌, ◌-◌, ◌*◌, ◌%◌, ◌^◌, ◌≤◌, ◌<◌, ◌≡◌, ◌≢◌, inl, inr, refl, ap, ◌∙◌, true, false, List,
  [], ◌∷◌, ◌++◌, append_assoc, append-nil, All, take-append, drop-append, length-append, Option,
  none, some, ltb, ◌==◌, length, take, drop, replicate, ok, Bool-cases, Option-cases, arith,
}
use cyanea.Acpi.{c_string}
use cyanea.Ctype.{isdigit}
use cyanea.Strings.{strchr, strncpy}
use cyanea.Strings.Copy.{Bytes, strncpy_lem}
use cyanea.Strtox.{strtoull, digit_value}
use cyanea.Strtox.Guess.{guessed}
use cyanea.Strtox.Value.{digits, value, guessed_le, strtoull-value}
use cyanea.Console.{PreferredConsole, first_digit, split_options, add_preferred, console_setup}

-- A character in front of the comma.
abbrev pub Plain : ℕ → Type 0
Plain c = (c ≢ 0) × (c ≢ 44)

-- What stands behind the name and the number.
unfoldable pub with_options : Option (List ℕ) → List ℕ
with_options none = []
with_options (some options) = 44 ∷ options

-- The number begins with a digit, if there is one.
unfoldable pub Digit : List ℕ → Type 0
Digit [] = Unit
Digit (c ∷ number) = isdigit c ≢ 0

strchr-Plain : (w : List ℕ) → All Plain w → strchr w 44 ≡ none
unfolding strchr
strchr-Plain [] h = refl
strchr-Plain (c ∷ w) ((a, b), h) =
    let other : (c == 44) ≡ false = ground arith in
    let more : (c == 0) ≡ false = ground arith in rw (strchr-Plain w h, other, more) refl

strchr-comma : (w options : List ℕ) → All Plain w → strchr (w ++ 44 ∷ options) 44 ≡ some (length w)
unfolding strchr
strchr-comma [] options h = refl
strchr-comma (c ∷ w) options ((a, b), h) =
    let other : (c == 44) ≡ false = ground arith in
    let more : (c == 0) ≡ false = ground arith in rw (strchr-comma w options h, other, more) refl

drop-past : (w rest : List ℕ) (c : ℕ) → drop (suc (length w)) (w ++ c ∷ rest) ≡ rest
drop-past [] rest c = refl
drop-past (x ∷ w) rest c = drop-past w rest c

Plain-Bytes : (w : List ℕ) → All Plain w → Bytes w
Plain-Bytes [] h = tt
Plain-Bytes (c ∷ w) ((a, b), h) = (a, Plain-Bytes w h)

c_string-zeros : (w : List ℕ) (n : ℕ) → Bytes w → c_string (w ++ replicate (suc n) 0) ≡ w
unfolding c_string
c_string-zeros [] n h = refl
c_string-zeros (c ∷ w) n (a, h) =
    let more : (c == 0) ≡ false = ground arith in rw (c_string-zeros w n h, more) refl

first_digit-name :
    (name number : List ℕ) (n : ℕ)
    → All (λ c. (c ≢ 0) × (isdigit c ≡ 0)) name
    → Bytes number
    → Digit number
    → first_digit (name ++ (number ++ replicate (suc n) 0)) ≡ length name
unfolding first_digit Digit
first_digit-name [] [] n h b d = refl
first_digit-name [] (c ∷ number) n h (b, bs) d =
    let more : (c == 0) ≡ false = ground arith in
    let digit : (isdigit c == 0) ≡ false = ground arith in rw (more, digit) refl
first_digit-name (c ∷ name) number n ((a, e), h) b d =
    let more : (c == 0) ≡ false = ground arith in
    let other : (isdigit c == 0) ≡ true = ground arith in
    rw (first_digit-name name number n h b d, more, other) refl

-- So many digits make a number of 64 bits.
length-digits_le : (base : ℕ) (s : List ℕ) → length (digits base s) ≤ length s
unfolding digits
length-digits_le base [] = omega arith
length-digits_le base (c ∷ s) = elim (Option-cases (digit_value c)) [
  | inl e ↦ rw (digits, e) (omega arith)
  | inr (v, e) ↦ elim (Bool-cases (ltb v base)) [
    | inl f ↦ rw (digits, e, f) (omega (arith, length-digits_le base s))
    | inr f ↦ rw (digits, e, f) (omega arith)
  ]
]

digits_small : (base : ℕ) (s : List ℕ) → All (λ v. v < base) (digits base s)
unfolding digits
digits_small base [] = tt
digits_small base (c ∷ s) = elim (Option-cases (digit_value c)) [
  | inl e ↦ rw (digits, e) tt
  | inr (v, e) ↦ elim (Bool-cases (ltb v base)) [
    | inl f ↦ let less : v < base = ground arith in rw (digits, e, f) (less, digits_small base s)
    | inr f ↦ rw (digits, e, f) tt
  ]
]

value_lt :
    (base acc k : ℕ) (vs : List ℕ)
    → base ≤ 16
    → acc < 16 ^ k
    → All (λ v. v < base) vs
    → value base acc vs < 16 ^ (k + length vs)
unfolding value
value_lt base acc k [] b h a = let same : k + 0 ≡ k = omega arith in rw same h
value_lt base acc k (v ∷ vs) b h (a, below) =
    let p = 16 ^ k in
    let power = pow-suc 16 k in
    let most : acc * base ≤ acc * 16 = mul-le-mul_left acc b in
    let next = value_lt base (acc * base + v) (suc k) vs b (omega (arith, power, most)) below in
    let same : k + suc (length vs) ≡ suc k + length vs = omega arith in rw same next

behind : (xs ys : List ℕ) → Bytes (xs ++ ys) → Bytes ys
behind [] ys h = h
behind (x ∷ xs) ys (a, h) = behind xs ys h

-- The number that stands behind the name, which 64 bits have room for.
unfoldable pub port : List ℕ → ℕ
port number = value (guessed number).0 0 (digits (guessed number).0 (guessed number).1)

strtoull-port :
    (scratch number : List ℕ)
    → length number < 15
    → strtoull scratch number 0 ≡ ok (some (port number))
unfolding port
strtoull-port scratch number short =
    let (base, rest) = guessed_le number in
    let most = length-digits_le (guessed number).0 (guessed number).1 in
    let power : 16 ^ (0 + length (digits (guessed number).0 (guessed number).1)) ≤ 16 ^ 15 =
      pow-le-pow_right (omega arith) {j = 15} (omega (arith, rest, most)) in
    let small =
      value_lt (guessed number).0 0 0 (digits (guessed number).0 (guessed number).1) base
        (omega arith) (digits_small (guessed number).0 (guessed number).1) in
    let fits : ltb (value (guessed number).0 0 (digits (guessed number).0 (guessed number).1))
          (2 ^ 64)
        ≡ true =
      ground (arith, small, power) in
    strtoull-value scratch number 0 (omega arith) ∙ rw fits refl

-- The option is a name without digits, a number, or none, and options behind a comma, or none; the
-- name and the number have less than 15 characters.
pub record Asks (name number : List ℕ) : Type 0 where
  pub name_is : All (λ c. (c ≢ 0) × (isdigit c ≡ 0)) name
  pub plain : All Plain (name ++ number)
  pub digit : Digit number
  pub short : length (name ++ number) < 15

module _ (scratch name number : List ℕ) (a : Asks name number) (pcs : List PreferredConsole) where
  abbrev buffer : List ℕ
  buffer = name ++ (number ++ replicate (suc (14 - length (name ++ number))) 0)

  copied : strncpy (name ++ number) 15 ≡ ok buffer
  copied =
      let h = a.short in
      let n : 15 - length (name ++ number) ≡ suc (14 - length (name ++ number)) = omega arith in
      (strncpy_lem (name ++ number) 15 (Plain-Bytes (name ++ number) a.plain)).0 h
      ∙ ap (λ k. ok ((name ++ number) ++ replicate k 0)) n
      ∙ ap ok (append_assoc name number (replicate (suc (14 - length (name ++ number))) 0))

  number_bytes : Bytes number
  number_bytes = behind name number (Plain-Bytes (name ++ number) a.plain)

  -- The number is read, and the name is what stands in front of it.
  read_port :
      strtoull scratch (c_string (drop (first_digit buffer) buffer)) 0 ≡ ok (some (port number))
  read_port =
      let n = 14 - length (name ++ number) in
      let at = first_digit-name name number n a.name_is number_bytes a.digit in
      let h = a.short in
      rw
        (at, drop-append name (number ++ replicate (suc n) 0), c_string-zeros number n number_bytes)
        (strtoull-port scratch number (omega (arith, length-append name number)))

  read_name : take (first_digit buffer) buffer ≡ name
  read_name =
      let n = 14 - length (name ++ number) in
      rw (first_digit-name name number n a.name_is number_bytes a.digit)
        (take-append name (number ++ replicate (suc n) 0))

  split :
      (options : Option (List ℕ))
      → split_options ((name ++ number) ++ with_options options) ≡ (name ++ number, options)
  unfolding split_options with_options
  split none =
      rw
        (
          append-nil (name ++ number),
          split_options,
          strchr-Plain (name ++ number) a.plain,
          append-nil (name ++ number),
        )
        refl
  split (some options) =
      rw
        (
          split_options,
          strchr-comma (name ++ number) options a.plain,
          take-append (name ++ number) (44 ∷ options),
          drop-past (name ++ number) options 44,
        )
        refl

  -- For a name without digits, a number, or none, and options behind a comma, or none, where name and
  -- number have less than 15 characters, `console_setup` does what `__add_preferred_console` does
  -- for that name, the low 32 bits of the number, and those options, asked for on the command line.
  pub console_setup-add_preferred :
      (options : Option (List ℕ))
      → console_setup scratch ((name ++ number) ++ with_options options) pcs
        ≡ add_preferred name (port number % 2 ^ 32) options true pcs
  unfolding console_setup
  console_setup-add_preferred options =
      rw (split options, copied, read_port, read_name, split options) refl
