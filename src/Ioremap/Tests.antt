-- ===== src/Ioremap/Tests.antt =====
-- Runs of arch/x86/ukernel/ioremap.c.
use cyanea.Prelude.{
  ℕ, zero, suc, ◌+◌, ◌≤◌, ◌<◌, ◌≡◌, ◌⊎◌, refl, ◌∷◌, Option, none, some, arith, get_elem?, set,
  replicate, ok, fault, ◌>>=◌, ◌^◌, [], Returns,
}
use cyanea.Align.{align_kernel}
use cyanea.PageTable.Tables.{index}
use cyanea.Ioremap.Pages.{
  Fixed, nr_pages, map_loop, set_fixmap, fixmap_entry, fix_to_virt, virt_to_fix, same_pages,
  ioremap_prot, iounmap,
}
use cyanea.Ioremap.Mapped.{Mapped, ioremap_prot-Mapped}
use cyanea.Ioremap.{total, Mapping, search, find_free_range}
use cyanea.Ioremap.Free.{Fits, Room, Free, find_free_range-Free}

-- The first two slots are taken, and no others.
abbrev taken : Mapping
taken = some 2 ∷ replicate 511 none

replicate-none : (n i len : ℕ) → get_elem? (replicate n none) i ≡ some (some len) → ⊥
replicate-none zero i len h = ground arith
replicate-none (suc n) zero len h = ground arith
replicate-none (suc n) (suc i) len h = replicate-none n i len h

taken_inside : (i len : ℕ) → get_elem? taken i ≡ some (some len) → (0 < len) × (i + len ≤ total)
taken_inside zero len h = let two : 2 ≡ len = ground arith in (omega arith, omega arith)
taken_inside (suc i) len h = absurd (replicate-none 511 i len h)

taken_before : (i len : ℕ) → get_elem? taken i ≡ some (some len) → i + len + 2 ≤ total
taken_before zero len h = let two : 2 ≡ len = ground arith in omega arith
taken_before (suc i) len h = absurd (replicate-none 511 i len h)

replicate-free : (n j : ℕ) → j < n → get_elem? {A = Option ℕ} (replicate n none) j ≡ some none
replicate-free zero j h = absurd (omega arith)
replicate-free (suc n) zero h = refl
replicate-free (suc n) (suc j) h = replicate-free n j (omega arith)

taken_apart :
    (i len j : ℕ)
    → get_elem? taken i ≡ some (some len)
    → i < j
    → j < i + len
    → get_elem? taken j ≡ some none
taken_apart (suc i) len j e l u = absurd (replicate-none 511 i len e)
taken_apart zero len zero e l u = absurd (omega arith)
taken_apart zero len (suc j) e l u =
    let two : 2 ≡ len = ground arith in replicate-free 511 j (omega arith)

taken-Fits : Fits taken
taken-Fits = record { sized = refl; inside = taken_inside; apart = taken_apart }

find_free_range-Free_example :
    ((find_free_range 3 taken ≡ fault) × (¬ (Room taken 3)))
    ⊎ ((start : ℕ) × (find_free_range 3 taken ≡ ok (some start, set taken start (some 3)))
        × (start + 3 ≤ total)
        × Free taken start (start + 3))
find_free_range-Free_example = find_free_range-Free 3 taken taken-Fits

-- Three slots are found behind the two that are taken.
taken_runs : find_free_range 3 taken ≡ ok (some 2, set taken 2 (some 3))
unfolding find_free_range search
taken_runs = refl

-- All slots are taken, and the search for one more reads `mapping[512]`.
abbrev full : Mapping
full = some 512 ∷ replicate 511 none

full_runs : find_free_range 1 full ≡ fault
unfolding find_free_range search
full_runs = refl

abbrev fixed : Fixed
fixed = record { mapping = taken; fixmap_pgt = λ i. 0 }

taken-Room : Room taken (nr_pages 0x7E1234 0x1000)
unfolding nr_pages align_kernel
taken-Room = record { most = omega arith; before = taken_before }

ioremap_prot-Mapped_example :
    Returns
      (Mapped 0xFFFFFFFFFFFFFFFF 0x7E1234 0x1000 0x163 fixed)
      (ioremap_prot 0xFFFFFFFFFFFFFFFF 0x7E1234 0x1000 0x163 fixed)
ioremap_prot-Mapped_example =
    ioremap_prot-Mapped 0xFFFFFFFFFFFFFFFF 0x7E1234 0x1000 0x163 fixed taken-Fits taken-Room
      (omega arith) (omega arith) (omega arith) (omega arith)

-- What is mapped is unmapped again.
iounmap_runs :
    (ioremap_prot 0xFFFFFFFFFFFFFFFF 0x7E1234 0x1000 0x163 fixed >>= λ (address, t).
    iounmap 0xFFFFFFFFFFFFFFFF 0xFFFFFFFFFFC02234 0x1000 t >>= λ t'.
    ok (t.fixmap_pgt 2 ∷ t.fixmap_pgt 3 ∷ t'.fixmap_pgt 2 ∷ t'.fixmap_pgt 3 ∷ []))
    ≡ ok (0x7E1163 ∷ 0x7E2163 ∷ 0 ∷ 0 ∷ [])
unfolding ioremap_prot nr_pages map_loop set_fixmap fixmap_entry fix_to_virt virt_to_fix same_pages
    iounmap align_kernel find_free_range search index
iounmap_runs = refl

-- A range of 2^44 bytes has no pages for the code, and its run, of length 0, takes the place of the run
-- at the first slot.
empty_run :
    (ioremap_prot 0xFFFFFFFFFFFFFFFF 0 (2 ^ 44) 0x163 fixed >>= λ (address, t).
    ok (get_elem? t.mapping 0))
    ≡ ok (some (some 0))
unfolding ioremap_prot nr_pages map_loop fix_to_virt align_kernel find_free_range search
empty_run = refl
