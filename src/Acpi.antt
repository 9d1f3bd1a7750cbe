-- ===== src/Acpi.antt =====
-- drivers/acpi/acpi.c: the tables of the firmware. `mem` is the physical memory, byte by byte, and
-- `maps` says whether `memremap` succeeds for an address and a size; what is mapped is unmapped again
-- on every path, and messages are left out.
pub mod Subtables
pub mod Tables
mod Tests
use cyanea.Prelude.{
  ℕ, zero, suc, ◌+◌, ◌-◌, ◌*◌, ◌/◌, ◌%◌, ◌^◌, Bool, true, false, not, ◌&&◌, ◌||◌, List, [], ◌∷◌,
  ◌++◌, Option, none, some, ltb, ◌==◌, length, Run, ok, fault, timeout, if◌then◌else◌, ◌>>=◌, ℤ,
  pos, negsuc,
}
use cyanea.Strings.{strncmp}

-- `struct acpi_table_desc`
pub record Desc : Type 0 where
  pub address : ℕ
  pub size : ℕ
  pub signature : List ℕ

-- `ACPI_MAX_INIT_TABLES`, and the sizes of `struct acpi_table_header` and `struct acpi_table_rsdp`, which
-- is not packed.
abbrev pub max_init_tables : ℕ
max_init_tables = 32

abbrev pub header_size : ℕ
header_size = 36

abbrev pub rsdp_size : ℕ
rsdp_size = 40

-- The bytes of an array, up to the first NUL.
unfoldable pub c_string : List ℕ → List ℕ
c_string [] = []
c_string (ch ∷ cs) = let rest = c_string cs in if ch == 0 then [] else ch ∷ rest

abbrev pub is_zero : ℤ → Bool
is_zero (pos n) = n == 0
is_zero (negsuc n) = false

-- `acpi_compare_sig`
unfoldable pub acpi_compare_sig : List ℕ → List ℕ → Bool
acpi_compare_sig a sig = is_zero (strncmp (c_string a) (c_string sig) 4)

module _ (mem : ℕ → ℕ) where
  unfoldable pub bytes_at : ℕ → ℕ → List ℕ
  bytes_at address zero = []
  bytes_at address (suc n) = mem address ∷ bytes_at (address + 1) n

  -- A field of `n` bytes.
  unfoldable pub field_at : ℕ → ℕ → ℕ
  field_at address zero = 0
  field_at address (suc n) = mem address + field_at (address + 1) n * 256

  -- The sum is a `char`.
  unfoldable pub acpi_calc_checksum : ℕ → ℕ → ℕ
  acpi_calc_checksum address zero = 0
  acpi_calc_checksum address (suc n) = (mem address + acpi_calc_checksum (address + 1) n) % 256

  -- `table->length`
  unfoldable pub table_length : ℕ → ℕ
  table_length table = field_at (table + 4) 4

  unfoldable pub acpi_validate : ℕ → Bool
  acpi_validate table = acpi_calc_checksum table (table_length table) == 0

module _ (mem : ℕ → ℕ) (maps : ℕ → ℕ → Bool) where
  -- Whether there is a table at the address.
  unfoldable pub acquire_table : ℕ → Bool
  acquire_table paddr =
      maps paddr header_size && maps paddr (table_length mem paddr) && acpi_validate mem paddr

  -- `acpi_add_table`: whether it returns success, and the tables.
  unfoldable pub acpi_add_table : ℕ → List Desc → Bool × List Desc
  acpi_add_table paddr tables =
      if not (acquire_table paddr)
      then (true, tables)
      else if length tables == max_init_tables
      then (false, tables)
      else (
        true,
        tables
            ++ record {
              address = paddr;
              size = table_length mem paddr;
              signature = bytes_at mem paddr 4;
            }
              ∷ [],
      )

  -- The loop over the entries of the XSDT, of which `n` are left from `entry` on.
  unfoldable pub add_entries : ℕ → ℕ → List Desc → List Desc
  add_entries zero entry tables = tables
  add_entries (suc n) entry tables =
      let paddr = field_at mem entry 8 in
      add_entries n (entry + 8) (if paddr == 0 then tables else (acpi_add_table paddr tables).1)

  -- A length below the header's makes `length - sizeof(header)` wrap, on 64 bits.
  unfoldable pub acpi_parse_root_table : ℕ → List Desc → Bool × List Desc
  acpi_parse_root_table rsdp tables =
      let xsdt = field_at mem (rsdp + 24) 8 in
      let n = (table_length mem xsdt + 2 ^ 64 - header_size) % 2 ^ 64 / 8 in
      if not (maps rsdp rsdp_size) || not (mem (rsdp + 15) == 2) || not (acquire_table xsdt)
      then (false, tables)
      else (true, add_entries n (xsdt + header_size) tables)

  unfoldable pub acpi_table_init : ℕ → List Desc → Bool × List Desc
  acpi_table_init rsdp tables =
      if rsdp == 0 then (false, tables) else acpi_parse_root_table rsdp tables

-- The loop of `acpi_get_table`: the table that is to be mapped, where `n` with the signature are
-- found before.
unfoldable pub find_table : List ℕ → ℕ → ℕ → List Desc → Option Desc
find_table signature instance_no n [] = none
find_table signature instance_no n (t ∷ tables) =
    let later = find_table signature instance_no n tables in
    let counted = find_table signature instance_no (n + 1) tables in
    if not (acpi_compare_sig t.signature signature)
    then later
    else if ltb (n + 1) instance_no
    then counted
    else some t

-- `acpi_get_table`: none stands for both errors.
unfoldable pub acpi_get_table : (ℕ → ℕ → Bool) → List ℕ → ℕ → List Desc → Option Desc
acpi_get_table maps signature instance_no tables =
    elim (find_table signature instance_no 0 tables) [
      | none ↦ none
      | some t ↦ if maps t.address t.size then some t else none
    ]

-- `acpi_table_parse`: whether there is a table, and what the handler makes of the state; what the
-- handler returns is ignored.
unfoldable pub acpi_table_parse :
    {S : Type 0} → (ℕ → ℕ → Bool) → (ℕ → S → S) → List ℕ → List Desc → S → Bool × S
acpi_table_parse maps handler signature tables s = elim (acpi_get_table maps signature 1 tables) [
  | none ↦ (false, s)
  | some t ↦ (true, handler t.address s)
]

-- The results of the loop of `acpi_subtable_parse`; a handler gets the address of a subtable and
-- says whether it failed. A `err` that was never set is a fault; none is `-EINVAL`.
abbrev pub Handled : Type 0 → Type 0
Handled S = Option ℕ × S

module _ {S : Type 0} (mem : ℕ → ℕ) (handler : ℕ → S → Bool × S) where
  -- The loop, `fuel` rounds at most, at the subtable `at`, with `count` handled before.
  unfoldable pub subtable_loop : ℕ → ℕ → ℕ → ℕ → Option Bool → ℕ → S → Run (Handled S)
  subtable_loop zero type end at err count s = timeout
  subtable_loop (suc fuel) type end at err count s = elim (ltb (at + 2) end) [
    | false ↦ elim err [ none ↦ fault | some failed ↦ ok (some count, s) ]
    | true ↦ elim (mem at == type) [
      | false ↦ subtable_loop fuel type end (at + mem (at + 1)) err count s
      | true ↦
          let (failed, s') = handler at s in
          elim failed [
            | true ↦ ok (none, s')
            | false ↦ subtable_loop fuel type end (at + mem (at + 1)) (some false) (count + 1) s'
          ]
    ]
  ]

  unfoldable pub acpi_subtable_parse : ℕ → ℕ → ℕ → S → Run (Handled S)
  acpi_subtable_parse table table_size type s =
      subtable_loop (table_length mem table + 1) type (table + table_length mem table)
        (table + table_size) none 0 s
