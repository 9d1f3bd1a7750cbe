-- ===== src/Acpi/Tables.antt =====
-- The tables that drivers/acpi/acpi.c records, and how they are found again.
use cyanea.Prelude.{
  ℕ, zero, suc, ◌+◌, ◌-◌, ◌*◌, ◌/◌, sym, ◌∙◌, sub_ℕ, false, ◌%◌, ◌^◌, ◌≤◌, ◌≡◌, ◌≢◌, refl, inl, inr,
  Bool, Bool-cases, true, not, ◌||◌, List, [], ◌∷◌, ◌++◌, All, All-append, length-append, none,
  some, ltb, ◌==◌, length, get_elem?, if◌then◌else◌, arith,
}
use cyanea.Acpi.{
  Desc, max_init_tables, header_size, rsdp_size, is_zero, c_string, acpi_compare_sig, bytes_at,
  field_at, table_length, acpi_calc_checksum, acpi_validate, acpi_get_table, acquire_table,
  acpi_add_table, add_entries, acpi_parse_root_table, acpi_table_init, find_table,
}
use cyanea.Strings.{strncmp}
use cyanea.Strings.Copy.{Bytes}

-- Whether two lists are equal.
unfoldable pub same_list : List ℕ → List ℕ → Bool
same_list [] [] = true
same_list [] (y ∷ ys) = false
same_list (x ∷ xs) [] = false
same_list (x ∷ xs) (y ∷ ys) = let rest = same_list xs ys in if x == y then rest else false

-- The tables with a signature.
unfoldable pub matching : List ℕ → List Desc → List Desc
matching signature [] = []
matching signature (t ∷ tables) =
    let rest = matching signature tables in
    if same_list t.signature signature then t ∷ rest else rest

sub-is_zero : (x y : ℕ) → is_zero (sub_ℕ x y) ≡ (x == y)
sub-is_zero x y = ground arith

nothing_left : (xs ys : List ℕ) → length xs ≡ 0 → length ys ≡ 0 → same_list xs ys ≡ true
unfolding same_list
nothing_left [] [] a b = refl
nothing_left [] (y ∷ ys) a b = absurd (omega arith)
nothing_left (x ∷ xs) ys a b = absurd (omega arith)

-- `strncmp` of so many bytes, of which the second ones are not NUL.
strncmp-same_list :
    (n : ℕ) (xs ys : List ℕ)
    → length xs ≡ n
    → length ys ≡ n
    → Bytes ys
    → is_zero (strncmp (c_string xs) (c_string ys) n) ≡ same_list xs ys
unfolding strncmp c_string same_list
strncmp-same_list zero [] [] a b h = refl
strncmp-same_list zero [] (y ∷ ys) a b h = absurd (omega arith)
strncmp-same_list zero (x ∷ xs) ys a b h = absurd (omega arith)
strncmp-same_list (suc n) [] ys a b h = absurd (omega arith)
strncmp-same_list (suc n) (x ∷ xs) [] a b h = absurd (omega arith)
strncmp-same_list (suc n) (x ∷ xs) (y ∷ ys) a b (nz, h) =
    let later = strncmp-same_list n xs ys (omega arith) (omega arith) h in
    let more : (y == 0) ≡ false = ground arith in
    elim (Bool-cases (x == 0)) [
      | inl e ↦
          let other : (x == y) ≡ false = ground arith in
          let first : (0 == y) ≡ false = ground arith in
          rw (e, more, other) (sub-is_zero 0 y ∙ first)
      | inr e ↦ elim (Bool-cases (x == y)) [
        | inr other ↦ rw (e, more, other) (sub-is_zero x y ∙ other)
        | inl same ↦ elim (Bool-cases (n == 0)) [
          | inl last ↦
              let none_left : n ≡ 0 = ground arith in
              rw (e, more, same, last, e)
                (sub-is_zero x y ∙ same ∙ sym (nothing_left xs ys (omega arith) (omega arith)))
          | inr further ↦ rw (e, more, same, further, e) later
        ]
      ]
    ]

acpi_compare_sig-same_list :
    (a signature : List ℕ)
    → length a ≡ 4
    → length signature ≡ 4
    → Bytes signature
    → acpi_compare_sig a signature ≡ same_list a signature
unfolding acpi_compare_sig
acpi_compare_sig-same_list a signature four four' h = strncmp-same_list 4 a signature four four' h

-- The signatures have four bytes.
abbrev pub Signed : List Desc → Type 0
Signed tables = All (λ t. length t.signature ≡ 4) tables

find_table-matching :
    (signature : List ℕ) (instance_no n : ℕ) (tables : List Desc)
    → length signature ≡ 4
    → Bytes signature
    → Signed tables
    → find_table signature instance_no n tables
      ≡ get_elem? (matching signature tables) (instance_no - (n + 1))
unfolding find_table matching
find_table-matching signature instance_no n [] four h signed = refl
find_table-matching signature instance_no n (t ∷ tables) four h (first, signed) =
    let compared = acpi_compare_sig-same_list t.signature signature first four h in
    elim (Bool-cases (same_list t.signature signature)) [
      | inr e ↦ rw (compared, e) (find_table-matching signature instance_no n tables four h signed)
      | inl e ↦ elim (Bool-cases (ltb (n + 1) instance_no)) [
        | inl f ↦
            let one_less : instance_no - (n + 1) ≡ suc (instance_no - (n + 1 + 1)) = ground arith in
            rw (compared, e, f, one_less)
              (find_table-matching signature instance_no (n + 1) tables four h signed)
        | inr f ↦
            let here : instance_no - (n + 1) ≡ 0 = ground arith in rw (compared, e, f, here) refl
      ]
    ]

-- The sum of `n` bytes.
unfoldable pub byte_sum : (ℕ → ℕ) → ℕ → ℕ → ℕ
byte_sum mem address zero = 0
byte_sum mem address (suc n) = mem address + byte_sum mem (address + 1) n

-- What is recorded of a table: it is not at 0, it begins with the signature, the length is the number of
-- four bytes behind it, and so many bytes add up to a multiple of 256.
abbrev pub IsTable : (ℕ → ℕ) → Desc → Type 0
IsTable mem t =
    let a = t.address in
    (a ≢ 0)
    × (t.signature ≡ mem a ∷ mem (a + 1) ∷ mem (a + 2) ∷ mem (a + 3) ∷ [])
    × (t.size ≡ mem (a + 4) + mem (a + 5) * 2 ^ 8 + mem (a + 6) * 2 ^ 16 + mem (a + 7) * 2 ^ 24)
    × (byte_sum mem a t.size % 256 ≡ 0)

acpi_calc_checksum-byte_sum :
    (mem : ℕ → ℕ) (address n : ℕ) → acpi_calc_checksum mem address n ≡ byte_sum mem address n % 256
unfolding acpi_calc_checksum byte_sum
acpi_calc_checksum-byte_sum mem address zero = refl
acpi_calc_checksum-byte_sum mem address (suc n) =
    omega (arith, acpi_calc_checksum-byte_sum mem (address + 1) n)

table_length-bytes :
    (mem : ℕ → ℕ) (a : ℕ)
    → table_length mem a
      ≡ mem (a + 4) + mem (a + 5) * 2 ^ 8 + mem (a + 6) * 2 ^ 16 + mem (a + 7) * 2 ^ 24
unfolding table_length field_at
table_length-bytes mem a =
    let five : a + 4 + 1 ≡ a + 5 = omega arith in
    let six : a + 5 + 1 ≡ a + 6 = omega arith in
    let seven : a + 6 + 1 ≡ a + 7 = omega arith in rw (five, six, seven) (omega arith)

bytes_at-four :
    (mem : ℕ → ℕ) (a : ℕ) → bytes_at mem a 4 ≡ mem a ∷ mem (a + 1) ∷ mem (a + 2) ∷ mem (a + 3) ∷ []
unfolding bytes_at
bytes_at-four mem a =
    let two : a + 1 + 1 ≡ a + 2 = omega arith in
    let three : a + 2 + 1 ≡ a + 3 = omega arith in rw (two, three) refl

-- A table that is taken has the right sum.
acpi_validate-sum :
    (mem : ℕ → ℕ) (a : ℕ)
    → acpi_validate mem a ≡ true
    → byte_sum mem a (table_length mem a) % 256 ≡ 0
unfolding acpi_validate
acpi_validate-sum mem a h =
    let zero_sum : acpi_calc_checksum mem a (table_length mem a) ≡ 0 = ground arith in
    sym (acpi_calc_checksum-byte_sum mem a (table_length mem a)) ∙ zero_sum

pub record Recorded (mem : ℕ → ℕ) (tables : List Desc) : Type 0 where
  pub room : length tables ≤ max_init_tables
  pub tables_are : All (IsTable mem) tables

module _ (mem : ℕ → ℕ) (maps : ℕ → ℕ → Bool) where
  acpi_add_table-Recorded :
      (paddr : ℕ) (tables : List Desc)
      → paddr ≢ 0
      → Recorded mem tables
      → Recorded mem (acpi_add_table mem maps paddr tables).1
  unfolding acpi_add_table acquire_table
  acpi_add_table-Recorded paddr tables nz r =
      let t : Desc = record {
        address = paddr;
        size = table_length mem paddr;
        signature = bytes_at mem paddr 4;
      } in
      elim (Bool-cases (acquire_table mem maps paddr)) [
        | inr e ↦ rw e r
        | inl e ↦ elim (Bool-cases (length tables == max_init_tables)) [
          | inl full ↦ rw (e, full) r
          | inr free ↦
              let one_more : length (tables ++ t ∷ []) ≡ length tables + 1 =
                length-append tables (t ∷ []) in
              let few = r.room in
              let valid : acpi_validate mem paddr ≡ true = ground arith in
              rw (e, free)
                (record {
                  room = ground (arith, one_more);
                  tables_are = All-append (IsTable mem) tables (t ∷ []) r.tables_are (
                    (
                      nz,
                      bytes_at-four mem paddr,
                      table_length-bytes mem paddr,
                      acpi_validate-sum mem paddr valid,
                    ),
                    tt,
                  );
                })
        ]
      ]

  add_entries-Recorded :
      (n entry : ℕ) (tables : List Desc)
      → Recorded mem tables
      → Recorded mem (add_entries mem maps n entry tables)
  unfolding add_entries
  add_entries-Recorded zero entry tables r = r
  add_entries-Recorded (suc n) entry tables r =
      let paddr = field_at mem entry 8 in
      elim (Bool-cases (paddr == 0)) [
        | inl e ↦ rw e (add_entries-Recorded n (entry + 8) tables r)
        | inr e ↦
            let nz : paddr ≢ 0 = ground arith in
            rw e (
              add_entries-Recorded n (entry + 8) (acpi_add_table mem maps paddr tables).1
                (acpi_add_table-Recorded paddr tables nz r))
      ]

  -- Whatever the memory holds, and whichever mappings fail, every table that is recorded when the
  -- firmware's tables are read begins with the signature that is recorded, has the length that is
  -- recorded in the four bytes behind it, and its bytes, as many as the length says, add up to a
  -- multiple of 256; and there are 32 tables at most, if all that held before.
  pub acpi_table_init-Recorded :
      (rsdp : ℕ) (tables : List Desc)
      → Recorded mem tables
      → Recorded mem (acpi_table_init mem maps rsdp tables).1
  unfolding acpi_table_init acpi_parse_root_table
  acpi_table_init-Recorded rsdp tables r =
      let xsdt = field_at mem (rsdp + 24) 8 in
      let n = (table_length mem xsdt + 2 ^ 64 - header_size) % 2 ^ 64 / 8 in
      let bad =
        not (maps rsdp rsdp_size)
        || not (mem (rsdp + 15) == 2)
        || not (acquire_table mem maps xsdt) in
      elim (Bool-cases (rsdp == 0)) [
        | inl e ↦ rw e r
        | inr e ↦ elim (Bool-cases bad) [
          | inl f ↦ rw (e, f) r
          | inr f ↦ rw (e, f) (add_entries-Recorded n (xsdt + header_size) tables r)
        ]
      ]

-- For a signature of four bytes that are not NUL, and tables whose signatures have four bytes,
-- `acpi_get_table` gives the table of that number among those with an equal signature, counted from 1,
-- where 0 counts as 1, if it can be mapped; the order is the one in which the tables were recorded.
pub acpi_get_table-matching :
    (maps : ℕ → ℕ → Bool) (signature : List ℕ) (instance_no : ℕ) (tables : List Desc)
    → length signature ≡ 4
    → Bytes signature
    → Signed tables
    → acpi_get_table maps signature instance_no tables
      ≡ elim (get_elem? (matching signature tables) (instance_no - 1)) [
        | none ↦ none
        | some t ↦ if maps t.address t.size then some t else none
      ]
unfolding acpi_get_table
acpi_get_table-matching maps signature instance_no tables four h signed =
    let e = find_table-matching signature instance_no 0 tables four h signed in
    rw (acpi_get_table, e) refl
