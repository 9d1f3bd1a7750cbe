-- ===== src/Ioremap/Mapped.antt =====
-- What `__ioremap` of arch/x86/ukernel/ioremap.c maps.
use cyanea.Prelude.{
  [], ◌∷◌, ℕ, zero, suc, ◌+◌, ◌-◌, ◌*◌, ◌/◌, ◌^◌, ◌≤◌, ◌<◌, ◌≡◌, ◌⊎◌, inl, inr, refl, sym, ap, ◌∙◌,
  ◌≢◌, bit_and, bit_or, true, false, ◌||◌, Option, some, ltb, leb, ◌==◌, if◌then◌else◌, get_elem?,
  get_elem?-set_ne, set, length, length-set, add64, sub64, Returns, returns, Returns_mono,
  Bool-cases, arith, subst,
}
use cyanea.Align.{page_size, align_kernel, bit_and_mask}
use cyanea.Align.Rounding.{round_up, round_up-multiple}
use cyanea.Bits.{bit_and-low}
use cyanea.PageTable.Tables.{index}
use cyanea.Ioremap.{total, Mapping}
use cyanea.Ioremap.Free.{length_unique, Fits, Free, Room, find_free_range-Free}
use cyanea.Ioremap.Pages.{
  Fixed, fix_bitmap_end, fix_bitmap_begin, fix_top_addr, fix_to_virt, fixmap_entry, set_fixmap,
  map_loop, nr_pages, ioremap_prot,
}

-- The entry of a slot.
slot-index : (k : ℕ) → k < 512 → index 12 (fix_to_virt (1023 - k)) ≡ k
unfolding index fix_to_virt
slot-index k h = bit_and-low 9 (sub64 fix_top_addr ((1023 - k) * 2 ^ 12) / 2 ^ 12) ∙ omega arith

-- The slots from `start` on are mapped to the pages from `phys` on, and no other entry is changed.
record Pages (mask start nrpages phys prot : ℕ) (t t' : Fixed) : Type 0 where
  pages :
      (k : ℕ) → k < nrpages → t'.fixmap_pgt (start + k) ≡ fixmap_entry mask (phys + k * 2 ^ 12) prot
  others : (i : ℕ) → (i < start) ⊎ (start + nrpages ≤ i) → t'.fixmap_pgt i ≡ t.fixmap_pgt i
  same_mapping : t'.mapping ≡ t.mapping

Pages-cons :
    (mask start nrpages phys prot : ℕ) (t t' : Fixed)
    → Pages mask
        (start + 1)
        nrpages
        (phys + 2 ^ 12)
        prot
        (record t {
          fixmap_pgt = λ i. if i == start then fixmap_entry mask phys prot else t.fixmap_pgt i;
        })
        t'
    → Pages mask start (suc nrpages) phys prot t t'
Pages-cons mask start nrpages phys prot t t' r =
    let first : (if start == start then fixmap_entry mask phys prot else t.fixmap_pgt start)
        ≡ fixmap_entry mask phys prot =
      let same : (start == start) ≡ true = ground arith in rw same refl in
    record {
      pages = λ k h. elim (Bool-cases (k == 0)) [
        | inl e ↦
            let k_is : k ≡ 0 = ground arith in
            let at : start + k ≡ start = omega arith in
            let address : phys + k * 2 ^ 12 ≡ phys = omega arith in
            ap t'.fixmap_pgt at
            ∙ r.others start (inl (omega arith))
            ∙ first
            ∙ ap (λ a. fixmap_entry mask a prot) (sym address)
        | inr e ↦
            let more : 0 < k = ground arith in
            let at : start + k ≡ start + 1 + (k - 1) = omega arith in
            let address : phys + 2 ^ 12 + (k - 1) * 2 ^ 12 ≡ phys + k * 2 ^ 12 = omega arith in
            ap t'.fixmap_pgt at
            ∙ r.pages (k - 1) (omega arith)
            ∙ ap (λ a. fixmap_entry mask a prot) address
      ];
      others = λ i h.
          let elsewhere : (i == start) ≡ false = ground (arith, h) in
          r.others i (elim h [ inl low ↦ inl (omega arith) | inr high ↦ inr (omega arith) ])
          ∙ rw elsewhere refl;
      same_mapping = r.same_mapping;
    }

map_loop-Pages :
    (mask nrpages start phys prot : ℕ) (t : Fixed)
    → start + nrpages ≤ 512
    → phys + nrpages * 2 ^ 12 < 2 ^ 64
    → Returns
        (Pages mask start nrpages phys prot t)
        (map_loop mask nrpages (1023 - start) phys prot t)
unfolding map_loop set_fixmap
map_loop-Pages mask zero start phys prot t inside small =
    returns t
      (record { pages = λ k h. absurd (omega arith); others = λ i h. refl; same_mapping = refl })
map_loop-Pages mask (suc nrpages) start phys prot t inside small =
    let slot = 1023 - start in
    let low : leb fix_bitmap_end slot ≡ true = ground arith in
    let high : leb slot fix_bitmap_begin ≡ true = ground arith in
    let here = slot-index start (omega arith) in
    let entry = fixmap_entry mask phys prot in
    let t₁ : Fixed = record t { fixmap_pgt = λ i. if i == start then entry else t.fixmap_pgt i } in
    let next : sub64 (1023 - start) 1 ≡ 1023 - (start + 1) = omega arith in
    let page : add64 phys page_size ≡ phys + 2 ^ 12 = omega arith in
    rw (low, high, here, next, page)
      (Returns_mono
        (map_loop-Pages mask nrpages (start + 1) (phys + 2 ^ 12) prot t₁ (omega arith)
          (omega arith))
        (λ t' r. Pages-cons mask start nrpages phys prot t t' r))

-- The page of an address.
abbrev page_of : ℕ → ℕ
page_of phys = bit_and phys (2 ^ 64 - 2 ^ 12)

page_of-div : (phys : ℕ) → phys < 2 ^ 64 → page_of phys ≡ phys / 2 ^ 12 * 2 ^ 12
page_of-div phys h =
    let (q, e, lo, hi) = bit_and_mask 64 12 phys h (omega arith) in omega (arith, e, lo, hi)

-- The entry of a page, with a supported bit.
fixmap_entry-page :
    (mask a prot q : ℕ)
    → bit_and prot mask ≢ 0
    → a ≡ q * 2 ^ 12
    → a < 2 ^ 64
    → fixmap_entry mask a prot ≡ bit_or (q * 2 ^ 12) (bit_and prot mask)
unfolding fixmap_entry
fixmap_entry-page mask a prot q shown e h =
    let some_bit : (bit_and prot mask == 0) ≡ false = ground arith in
    let address : bit_and a (2 ^ 64 - 2 ^ 12) ≡ q * 2 ^ 12 = page_of-div a h ∙ omega (arith, e) in
    rw (some_bit, address) refl

-- The pages of a range, which does not end at the end of the address space.
nr_pages-covers :
    (phys size : ℕ)
    → 0 < size
    → size < 2 ^ 43
    → phys + size + 2 ^ 12 ≤ 2 ^ 64
    → (0 < nr_pages phys size)
      × (phys + size ≤ page_of phys + nr_pages phys size * 2 ^ 12)
      × (page_of phys + nr_pages phys size * 2 ^ 12 < phys + size + 2 ^ 12)
unfolding nr_pages round_up
nr_pages-covers phys size pos small fits =
    let sum : add64 phys size ≡ phys + size = omega arith in
    let (q, e, lo, hi) = round_up-multiple (phys + size) 12 (omega arith) fits in
    let page = page_of-div phys (omega arith) in
    let end : align_kernel (add64 phys size) page_size ≡ q * 2 ^ 12 =
      ap (λ t. align_kernel t page_size) sum ∙ e in
    let n : nr_pages phys size ≡ q - phys / 2 ^ 12 = omega (arith, end, page, lo, hi) in
    (omega (arith, n, lo), omega (arith, n, page, lo), omega (arith, n, page, lo, hi))

-- Slots from `start` on were free, and are taken by the pages of the range, as few as cover it, each of
-- which is mapped with the bits of the protection that are supported; nothing else is changed.
pub record Mapped (mask phys size prot : ℕ) (t : Fixed) (r : Option ℕ × Fixed) : Type 0 where
  pub start : ℕ
  pub address : r.0 ≡ some (add64 (fix_to_virt (1023 - start)) (bit_and phys (2 ^ 12 - 1)))
  pub inside : start + nr_pages phys size ≤ total
  pub free : Free t.mapping start (start + nr_pages phys size)
  pub taken : r.1.mapping ≡ set t.mapping start (some (nr_pages phys size))
  pub fits : Fits r.1.mapping
  pub pages :
      (k : ℕ)
      → k < nr_pages phys size
      → r.1.fixmap_pgt (start + k) ≡ bit_or ((phys / 2 ^ 12 + k) * 2 ^ 12) (bit_and prot mask)
  pub others :
      (i : ℕ) → (i < start) ⊎ (start + nr_pages phys size ≤ i) → r.1.fixmap_pgt i ≡ t.fixmap_pgt i
  pub covers : phys + size ≤ phys / 2 ^ 12 * 2 ^ 12 + nr_pages phys size * 2 ^ 12
  pub few : phys / 2 ^ 12 * 2 ^ 12 + nr_pages phys size * 2 ^ 12 < phys + size + 2 ^ 12

get_elem?-set :
    (xs : Mapping) (i : ℕ) (v : Option ℕ) → i < length xs → get_elem? (set xs i v) i ≡ some v
get_elem?-set [] i v h = absurd (omega arith)
get_elem?-set (x ∷ xs) zero v h = refl
get_elem?-set (x ∷ xs) (suc i) v h = get_elem?-set xs i v (omega arith)

set-Fits :
    (mapping : Mapping) (start n : ℕ)
    → Fits mapping
    → 0 < n
    → start + n ≤ total
    → Free mapping start (start + n)
    → Fits (set mapping start (some n))
set-Fits mapping start n f pos end free =
    let sized = f.sized in
    record {
      sized = length-set mapping start (some n) ∙ sized;
      inside = λ i len e. elim (Bool-cases (start == i)) [
        | inl same ↦
            let at : start ≡ i = ground arith in
            let own = get_elem?-set mapping start (some n) (omega arith) in
            let len_is : n ≡ len =
              length_unique n len (sym own ∙ ap (get_elem? (set mapping start (some n))) at ∙ e) in
            (omega arith, omega arith)
        | inr other ↦
            f.inside i len (sym (get_elem?-set_ne mapping start i (some n) (ground arith)) ∙ e)
      ];
      apart = λ i len j e l u. elim (Bool-cases (start == i)) [
        | inl same ↦
            let at : start ≡ i = ground arith in
            let own = get_elem?-set mapping start (some n) (omega arith) in
            let len_is : n ≡ len =
              length_unique n len (sym own ∙ ap (get_elem? (set mapping start (some n))) at ∙ e) in
            get_elem?-set_ne mapping start j (some n) (omega arith)
            ∙ free.unmarked j (omega arith) (omega arith)
        | inr other ↦
            let old = sym (get_elem?-set_ne mapping start i (some n) (ground arith)) ∙ e in
            let away = free.clear i len old in
            get_elem?-set_ne mapping start j (some n)
              (elim away [ inl low ↦ omega arith | inr high ↦ omega arith ])
            ∙ f.apart i len j old l u
      ];
    }

-- Where every marked run is not empty, ends within the array, has no other run inside of it and leaves
-- the last slots alone, as many as the range has pages, for a range that is not empty, has less than
-- 2^43 bytes and ends a page before the end of the address space, and with a protection that has a
-- supported bit, `__ioremap` returns the address of slots that were free: not marked, and in no marked
-- run. They are marked, which keeps the runs as they have to be, and map the pages of the range, as few
-- as cover it, with the bits of the protection that are supported; no other slot is changed.
pub ioremap_prot-Mapped :
    (mask phys size prot : ℕ) (t : Fixed)
    → Fits t.mapping
    → Room t.mapping (nr_pages phys size)
    → 0 < size
    → size < 2 ^ 43
    → phys + size + 2 ^ 12 ≤ 2 ^ 64
    → bit_and prot mask ≢ 0
    → Returns (Mapped mask phys size prot t) (ioremap_prot mask phys size prot t)
unfolding ioremap_prot
ioremap_prot-Mapped mask phys size prot t f room pos small fits shown =
    let n = nr_pages phys size in
    let most = room.most in
    let (some_pages, covers, tight) = nr_pages-covers phys size pos small fits in
    let page = page_of-div phys (omega arith) in
    let asked : (size == 0 || ltb total n) ≡ false = ground arith in
    elim (find_free_range-Free n t.mapping f) [
      | inl (e, no_room) ↦ absurd (no_room room)
      | inr (start, e, end, free) ↦
          let m =
            map_loop-Pages mask n start (page_of phys) prot
              (record t { mapping = set t.mapping start (some n) }) end (omega (arith, tight)) in
          let r = m.holds in
          rw (asked, e, m.runs)
            (returns
              (some (add64 (fix_to_virt (1023 - start)) (bit_and phys (2 ^ 12 - 1))), m.value)
              (record {
                start = start;
                address = refl;
                inside = end;
                free = free;
                taken = r.same_mapping;
                fits =
                    subst Fits (sym r.same_mapping)
                      (set-Fits t.mapping start n f some_pages end free);
                pages = λ k h.
                    r.pages k h
                    ∙ fixmap_entry-page mask (page_of phys + k * 2 ^ 12) prot (phys / 2 ^ 12 + k)
                        shown (omega (arith, page)) (omega (arith, tight));
                others = r.others;
                covers = omega (arith, covers, page);
                few = omega (arith, tight, page);
              }))
    ]
