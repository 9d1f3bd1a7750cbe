-- ===== src/Strtox/Value.antt =====
-- The value that `strtoull` of uklib/strtox.c returns.
use cyanea.Strtox.Guess.{unget_back, guessed, guess_base-Guess}
use native.Mathlib.Nat.{mul-le-mul, mul-le-mul_left, div-lt_iff_lt-mul, mod-eq_of_lt}
use native.Mathlib.Decide.{dec_lt}
use cyanea.Prelude.{
  ℕ, zero, suc, ◌+◌, ◌-◌, ◌*◌, ◌/◌, ◌%◌, ◌^◌, ◌≤◌, ◌<◌, ◌≡◌, refl, ap, subst, ◌∙◌, inl, inr, true,
  false, not, List, [], ◌∷◌, Option, none, some, arith, ltb, leb, ltb→lt, ◌==◌, if◌then◌else◌,
  length, Run, ok, Returns, returns, Returns-bind, ◌>>=◌, Bool-cases, Option-cases,
}
use cyanea.IoBuffer.Input.{Input, pushed, iob_read}
use cyanea.IoBuffer.Stream.{Streams, read-Got, read-end, scratch-Streams}
use cyanea.Strtox.{
  digit_value, unget, overflows, digit_loop, iob_strtoull, read_string, no_flush, scratch_input,
  strtoull,
}

-- The digits at the beginning of a string.
unfoldable pub digits : ℕ → List ℕ → List ℕ
digits base [] = []
digits base (c ∷ cs) =
    let more = digits base cs in
    elim (digit_value c) [ none ↦ [] | some v ↦ if ltb v base then v ∷ more else [] ]

-- The number that they are, behind `acc`.
unfoldable pub value : ℕ → ℕ → List ℕ → ℕ
value base acc [] = acc
value base acc (v ∷ vs) = value base (acc * base + v) vs

-- A result that does not fit in 64 bits is `-ERANGE`.
abbrev pub in_range : ℕ → Option ℕ
in_range n = if ltb n (2 ^ 64) then some n else none

value_le : (base acc : ℕ) (vs : List ℕ) → 0 < base → acc ≤ value base acc vs
unfolding value
value_le base acc [] h = omega arith
value_le base acc (v ∷ vs) h =
    let grows : acc * 1 ≤ acc * base = mul-le-mul_left acc h in
    omega (arith, grows, value_le base (acc * base + v) vs h)

-- The test for an overflow is exact for bases up to 16.
overflows_lem :
    (base result v : ℕ)
    → base ≤ 16
    → v < base
    → result < 2 ^ 64
    → overflows base result v ≡ not (ltb (result * base + v) (2 ^ 64))
overflows_lem base result v small digit fits =
    let pos : 0 < base = omega arith in
    let div = div-lt_iff_lt-mul {k = base} {x = 2 ^ 64 - 1 - v} {y = result} pos in
    elim (Bool-cases (leb (2 ^ 60) result)) [
      | inl big ↦ elim (Bool-cases (ltb ((2 ^ 64 - 1 - v) / base) result)) [
        | inl over ↦
            let past = div.0 (ground arith) in
            let not_less : ltb (result * base + v) (2 ^ 64) ≡ false = ground (arith, past) in
            rw (big, over, not_less) refl
        | inr under ↦
            let most : result * base + v < 2 ^ 64 = elim (dec_lt (2 ^ 64 - 1 - v) (result * base)) [
              | yes past ↦ absurd (let q = div.1 past in ground arith)
              | no within ↦ omega arith
            ] in
            let less : ltb (result * base + v) (2 ^ 64) ≡ true = ground arith in
            rw (big, under, less) refl
      ]
      | inr low ↦
          let room : result ≤ 2 ^ 60 - 1 = ground arith in
          let most : result * base ≤ (2 ^ 60 - 1) * 16 = mul-le-mul room small in
          let less : ltb (result * base + v) (2 ^ 64) ≡ true = ground (arith, most) in
          rw (low, less) refl
    ]

-- One round of the loop, by what becomes of the byte that it reads.
module _ (fuel base result c : ℕ) (io io₁ : Input) (s s₁ : List ℕ)
    (reads : iob_read read_string no_flush 1 io s ≡ ok (c ∷ [], io₁, s₁)) where
  stop_round :
      (io₂ : Input)
      → digit_value c ≡ none
      → unget c io₁ ≡ ok io₂
      → digit_loop read_string no_flush (suc fuel) base result io s ≡ ok (some result, io₂, s₁)
  unfolding digit_loop
  stop_round io₂ e u = ground (arith, reads, e, u)

  past_round :
      (io₂ : Input) (v : ℕ)
      → digit_value c ≡ some v
      → ltb v base ≡ false
      → unget c io₁ ≡ ok io₂
      → digit_loop read_string no_flush (suc fuel) base result io s ≡ ok (some result, io₂, s₁)
  unfolding digit_loop
  past_round io₂ v e f u = ground (arith, reads, e, f, u)

  over_round :
      (io₂ : Input) (v : ℕ)
      → digit_value c ≡ some v
      → ltb v base ≡ true
      → overflows base result v ≡ true
      → unget c io₁ ≡ ok io₂
      → digit_loop read_string no_flush (suc fuel) base result io s ≡ ok (none, io₂, s₁)
  unfolding digit_loop
  over_round io₂ v e f o u = ground (arith, reads, e, f, o, u)

  digit_round :
      (v : ℕ)
      → digit_value c ≡ some v
      → ltb v base ≡ true
      → overflows base result v ≡ false
      → digit_loop read_string no_flush (suc fuel) base result io s
        ≡ digit_loop read_string no_flush fuel base ((result * base + v) % 2 ^ 64) io₁ s₁
  unfolding digit_loop
  digit_round v e f o = ground (arith, reads, e, f, o)

module _ (base c : ℕ) (cs : List ℕ) where
  digits_stop : digit_value c ≡ none → digits base (c ∷ cs) ≡ []
  unfolding digits
  digits_stop e = rw (digits, e) refl

  digits_past : (v : ℕ) → digit_value c ≡ some v → ltb v base ≡ false → digits base (c ∷ cs) ≡ []
  unfolding digits
  digits_past v e f = rw (digits, e, f) refl

  digits_on :
      (v : ℕ)
      → digit_value c ≡ some v
      → ltb v base ≡ true
      → digits base (c ∷ cs) ≡ v ∷ digits base cs
  unfolding digits
  digits_on v e f = rw (digits, e, f) refl

abbrev Answers : Option ℕ → Option ℕ × Input × List ℕ → Type 0
Answers r (r', io, s) = r' ≡ r

answer :
    {r : Option ℕ} {run : Run (Option ℕ × Input × List ℕ)} (io : Input) (s : List ℕ)
    → run ≡ ok (r, io, s)
    → Returns (Answers r) run
answer {r} io s e = rw e (returns (r, io, s) refl)

digit_loop-value :
    (base : ℕ)
    → base ≤ 16
    → (rest : List ℕ) (fuel result : ℕ) (io : Input) (s : List ℕ) → length rest < fuel
    → result < 2 ^ 64
    → Streams io s rest
    → Returns
        (Answers (in_range (value base result (digits base rest))))
        (digit_loop read_string no_flush fuel base result io s)
unfolding digit_loop digits value
digit_loop-value base small rest zero result io s l fits h = absurd (omega arith)
digit_loop-value base small [] (suc fuel) result io s l fits h =
    let within : ltb result (2 ^ 64) ≡ true = ground arith in
    rw (digit_loop, read-end io s h, within) (returns (some result, io, []) refl)
digit_loop-value base small (c ∷ rest) (suc fuel) result io s l fits h =
    let g = read-Got io s c rest h in
    let (back, pushes, _) = g.back.back c in
    let restored = unget_back c g.next back (pushed c) pushes in
    let within : in_range result ≡ some result = ground arith in
    elim (Option-cases (digit_value c)) [
      | inl e ↦
          rw (digits_stop base c rest e, within)
            (answer back g.left
              (stop_round fuel base result c io g.next s g.left g.reads back e restored))
      | inr (v, e) ↦ elim (Bool-cases (ltb v base)) [
        | inr past ↦
            rw (digits_past base c rest v e past, within)
              (answer back g.left
                (past_round fuel base result c io g.next s g.left g.reads back v e past restored))
        | inl digit ↦
            let exact = overflows_lem base result v small (ground arith) fits in
            elim (Bool-cases (ltb (result * base + v) (2 ^ 64))) [
              | inl room ↦
                  let o : overflows base result v ≡ false = exact ∙ ap not room in
                  let same : (result * base + v) % 2 ^ 64 ≡ result * base + v =
                    mod-eq_of_lt (ltb→lt (result * base + v) (2 ^ 64) room) in
                  rw
                    (
                      digits_on base c rest v e digit,
                      digit_round fuel base result c io g.next s g.left g.reads v e digit o,
                      same,
                    )
                    (digit_loop-value base small rest fuel (result * base + v) g.next g.left
                      (omega arith) (ground arith) g.streams)
              | inr over ↦
                  let o : overflows base result v ≡ true = exact ∙ ap not over in
                  let more = value_le base (result * base + v) (digits base rest) (ground arith) in
                  let outside : in_range (value base (result * base + v) (digits base rest))
                      ≡ none =
                    ground (arith, more) in
                  rw (digits_on base c rest v e digit, outside)
                    (answer back g.left (
                      over_round fuel base result c io g.next s g.left g.reads back v e digit o
                        restored))
            ]
      ]
    ]

-- The base, and the string behind what stands for it.
abbrev pub numeral : ℕ → List ℕ → ℕ × List ℕ
numeral base str = if base == 0 then guessed str else (base, str)

pub guessed_le : (str : List ℕ) → ((guessed str).0 ≤ 16) × (length (guessed str).1 ≤ length str)
unfolding guessed
guessed_le [] = (omega arith, omega arith)
guessed_le (c ∷ []) = ground arith
guessed_le (c ∷ x ∷ cs) = ground arith

returned :
    {r : Option ℕ} {run : Run (Option ℕ × Input × List ℕ)}
    → Returns (Answers r) run
    → (run >>= λ (r', io, s). ok r') ≡ ok r
returned w = rw w.runs (ap ok w.holds)

-- For a base below 16, or 0, the result of `strtoull` is the number that the digits at the
-- beginning of the string are, behind a leading 0 or 0x where the base is 0, and `-ERANGE` if and
-- only if that number has more than 64 bits.
pub strtoull-value :
    (scratch str : List ℕ) (base : ℕ)
    → base < 16
    → strtoull scratch str base
      ≡ ok (
          in_range
            (value (numeral base str).0 0 (digits (numeral base str).0 (numeral base str).1)))
unfolding strtoull iob_strtoull
strtoull-value scratch str base small =
    let start = scratch_input scratch in
    let h = scratch-Streams scratch str in
    elim (Bool-cases (base == 0)) [
      | inr other ↦
          let not_hex : (base == 16) ≡ false = ground arith in
          rw (other, not_hex)
            (returned (
              digit_loop-value base (omega arith) str (length str + 1) 0 start str (omega arith)
                (omega arith) h))
      | inl open_base ↦ rw open_base (
          returned (
            Returns-bind
              (Answers
                (in_range (value (guessed str).0 0 (digits (guessed str).0 (guessed str).1))))
              _ (guess_base-Guess str start str h)
              (λ (b, io, s) g.
                let (below, shorter) = guessed_le str in
                let least = g.base in
                let rest = (guessed str).1 in
                subst
                  (λ t.
                    Returns (Answers (in_range (value t 0 (digits t rest))))
                      (digit_loop read_string no_flush (length str + 1) b 0 io s))
                  least
                  (digit_loop-value b (omega arith) rest (length str + 1) 0 io s (omega arith)
                    (omega arith) g.left))))
    ]
