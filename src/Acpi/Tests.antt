-- ===== src/Acpi/Tests.antt =====
-- Runs of drivers/acpi/acpi.c.
use cyanea.Prelude.{
  ℕ, ◌+◌, ◌≡◌, refl, Bool, true, false, List, [], ◌∷◌, none, some, ◌==◌, get_elem?, if◌then◌else◌,
  arith,
}
use cyanea.Acpi.{
  Desc, bytes_at, field_at, acpi_calc_checksum, table_length, acpi_validate, acquire_table,
  acpi_add_table, add_entries, acpi_parse_root_table, acpi_table_init, acpi_get_table,
  acpi_subtable_parse,
}
use cyanea.Acpi.Subtables.{LaidOut, of_type, answer, acpi_subtable_parse-answer}
use cyanea.Acpi.Tables.{Recorded, matching, acpi_table_init-Recorded, acpi_get_table-matching}

-- A memory that is 0 but for the bytes that are listed.
abbrev holds : List (ℕ × ℕ) → ℕ → ℕ
holds [] a = 0
holds ((b, v) ∷ bytes) a = let rest = holds bytes a in if a == b then v else rest

-- The root pointer at 100, its table at 200 with one entry, and a table `AB` at 300.
abbrev firmware : ℕ → ℕ
firmware = holds (
    (115, 2)
    ∷ (124, 200)
    ∷ (204, 44)
    ∷ (209, 167)
    ∷ (236, 44)
    ∷ (237, 1)
    ∷ (300, b'A')
    ∷ (301, b'B')
    ∷ (304, 36)
    ∷ (309, 89)
    ∷ [])

abbrev always : ℕ → ℕ → Bool
always a n = true

abbrev found : List Desc
found = record { address = 300; size = 36; signature = b'A' ∷ b'B' ∷ 0 ∷ 0 ∷ [] } ∷ []

init_runs : acpi_table_init firmware always 100 [] ≡ (true, found)
unfolding acpi_table_init acpi_parse_root_table add_entries acpi_add_table acquire_table
    acpi_validate table_length acpi_calc_checksum field_at bytes_at
init_runs = refl

acpi_table_init-Recorded_example : Recorded firmware (acpi_table_init firmware always 100 []).1
acpi_table_init-Recorded_example =
    acpi_table_init-Recorded firmware always 100 [] (record { room = omega arith; tables_are = tt })

abbrev apic : List ℕ
apic = b'A' ∷ b'P' ∷ b'I' ∷ b'C' ∷ []

-- Two tables, of which the second one has the signature.
abbrev two_tables : List Desc
two_tables =
    record { address = 300; size = 36; signature = b'A' ∷ b'P' ∷ b'I' ∷ 0 ∷ [] }
    ∷ record { address = 400; size = 44; signature = apic }
    ∷ []

acpi_get_table-matching_example :
    acpi_get_table always apic 1 two_tables ≡ elim (get_elem? (matching apic two_tables) 0) [
      | none ↦ none
      | some t ↦ if always t.address t.size then some t else none
    ]
acpi_get_table-matching_example =
    acpi_get_table-matching always apic 1 two_tables refl
      (omega arith, (omega arith, (omega arith, (omega arith, tt)))) (refl, (refl, tt))

-- A table of 46 bytes: behind its header of 36 a subtable of type 1, and one of type 0.
abbrev madt : ℕ → ℕ
madt = holds ((4, 46) ∷ (36, 1) ∷ (37, 4) ∷ (41, 6) ∷ [])

-- The handler keeps the addresses.
abbrev keep : ℕ → List ℕ → Bool × List ℕ
keep a seen = (false, a ∷ seen)

madt-LaidOut : LaidOut madt (0 + table_length madt 0) (0 + 36) (36 ∷ 40 ∷ [])
unfolding table_length field_at
madt-LaidOut = (refl, omega arith, omega arith, (refl, omega arith, omega arith, omega arith))

acpi_subtable_parse-answer_example :
    acpi_subtable_parse madt keep 0 36 1 [] ≡ answer none keep (of_type madt 1 (36 ∷ 40 ∷ [])) 0 []
acpi_subtable_parse-answer_example =
    acpi_subtable_parse-answer madt keep 0 36 1 [] (36 ∷ 40 ∷ []) madt-LaidOut
