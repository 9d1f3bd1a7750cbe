-- ===== src/Acpi/Subtables.antt =====
-- `acpi_subtable_parse` of drivers/acpi/acpi.c on subtables that are laid out one behind the other.
use cyanea.Prelude.{
  ℕ, zero, suc, ◌+◌, ◌-◌, ◌≤◌, ◌<◌, ◌≡◌, refl, inl, inr, Bool, Bool-cases, true, false, List, [],
  ◌∷◌, Option, none, some, ltb, ◌==◌, if◌then◌else◌, Run, ok, fault, arith,
}
use cyanea.Acpi.{table_length, Handled, subtable_loop, acpi_subtable_parse}

-- From `at` on, the subtables begin at these addresses, each has a length, and behind the last one
-- there is no room for a header and another byte.
abbrev pub LaidOut : (ℕ → ℕ) → ℕ → ℕ → List ℕ → Type 0
LaidOut mem end at [] = end ≤ at + 2
LaidOut mem end at (a ∷ starts) =
    (a ≡ at) × (at + 2 < end) × (0 < mem (at + 1)) × LaidOut mem end (at + mem (at + 1)) starts

-- Those of a type.
unfoldable pub of_type : (ℕ → ℕ) → ℕ → List ℕ → List ℕ
of_type mem type [] = []
of_type mem type (a ∷ starts) =
    let rest = of_type mem type starts in if mem a == type then a ∷ rest else rest

-- The handler is called on one after the other, until it fails.
unfoldable pub call_all : {S : Type 0} → (ℕ → S → Bool × S) → List ℕ → ℕ → S → Option ℕ × S
call_all handler [] count s = (some count, s)
call_all handler (a ∷ starts) count s =
    let (failed, s') = handler a s in
    let later = call_all handler starts (count + 1) s' in if failed then (none, s') else later

-- Where `err` was set before, or something is handled.
abbrev pub answer :
    {S : Type 0} → Option Bool → (ℕ → S → Bool × S) → List ℕ → ℕ → S → Run (Handled S)
answer none handler [] count s = fault
answer none handler (a ∷ starts) count s = ok (call_all handler (a ∷ starts) count s)
answer (some e) handler starts count s = ok (call_all handler starts count s)

module _ {S : Type 0} (mem : ℕ → ℕ) (handler : ℕ → S → Bool × S) where
  answer-next :
      (err : Option Bool) (a : ℕ) (starts : List ℕ) (count : ℕ) (s : S)
      → answer err handler (a ∷ starts) count s ≡ ok (call_all handler (a ∷ starts) count s)
  answer-next none a starts count s = refl
  answer-next (some e) a starts count s = refl

  subtable_loop-answer :
      (fuel type end at : ℕ) (err : Option Bool) (count : ℕ) (s : S) (starts : List ℕ)
      → LaidOut mem end at starts
      → end - at < fuel
      → subtable_loop mem handler fuel type end at err count s
        ≡ answer err handler (of_type mem type starts) count s
  unfolding subtable_loop of_type call_all
  subtable_loop-answer zero type end at err count s starts h f = absurd (omega arith)
  subtable_loop-answer (suc fuel) type end at none count s [] h f =
      let over : ltb (at + 2) end ≡ false = ground arith in rw (subtable_loop, over) refl
  subtable_loop-answer (suc fuel) type end at (some b) count s [] h f =
      let over : ltb (at + 2) end ≡ false = ground arith in rw (subtable_loop, over) refl
  subtable_loop-answer (suc fuel) type end at err count s (a ∷ starts) (e, room, pos, h) f =
      let more : ltb (at + 2) end ≡ true = ground arith in
      let next = at + mem (at + 1) in
      let less : end - next < fuel = omega arith in
      elim (Bool-cases (mem at == type)) [
        | inr other ↦
            rw (subtable_loop, e, more, other)
              (subtable_loop-answer fuel type end next err count s starts h less)
        | inl same ↦
            let s' = (handler at s).1 in
            elim (Bool-cases (handler at s).0) [
              | inl failed ↦
                  rw
                    (
                      subtable_loop,
                      e,
                      more,
                      same,
                      answer-next err at (of_type mem type starts) count s,
                      failed,
                    )
                    refl
              | inr fine ↦
                  rw
                    (
                      subtable_loop,
                      e,
                      more,
                      same,
                      answer-next err at (of_type mem type starts) count s,
                      fine,
                    )
                    (subtable_loop-answer fuel type end next (some false) (count + 1) s' starts h
                      less)
            ]
      ]

  -- Where the subtables lie one behind the other, each with a length, up to the end of the table, the
  -- handler is called on those of the type, in order, until one fails; the result is their number, or
  -- `-EINVAL`; if there is none of the type, a variable that was never set is read.
  pub acpi_subtable_parse-answer :
      (table table_size type : ℕ) (s : S) (starts : List ℕ)
      → LaidOut mem (table + table_length mem table) (table + table_size) starts
      → acpi_subtable_parse mem handler table table_size type s
        ≡ answer none handler (of_type mem type starts) 0 s
  unfolding acpi_subtable_parse
  acpi_subtable_parse-answer table table_size type s starts h =
      let len = table_length mem table in
      subtable_loop-answer (len + 1) type (table + len) (table + table_size) none 0 s starts h
        (omega arith)
