-- ===== src/PageTable/Kept.antt =====
-- The entries of the direct mapping of arch/x86/ukernel/mm.c that are present stay as they are.
use native.Mathlib.Nat.{pow-suc}
use cyanea.Prelude.{
  ℕ, suc, ◌+◌, ◌-◌, ◌*◌, ◌/◌, ◌%◌, ◌^◌, ◌≤◌, ◌<◌, ◌≡◌, ◌≢◌, ◌⊎◌, inl, inr, refl, sym, ap, ◌∙◌,
  bit_and, bit_or, Bool, true, false, ◌&&◌, ltb, ◌==◌, if◌then◌else◌, add64, sub64, Run, ok, ◌>>=◌,
  Safe, Safe-bind, Bool-cases, and_true, arith,
}
use cyanea.Align.{bit_and_step, bit_and-zero, pow_le}
use cyanea.PageTable.Tables.{
  Setup, Tables, start_kernel_map, pa, page_present, page_pse, pg_pfn_mask, pfn_mask, pte_present,
  large_flag, entry_at, entry_set, brk_end, Allocated, alloc_page,
}

-- The physical address of the pages that are set aside for tables.
unfoldable pub brk_phys : Setup → ℕ
brk_phys c = c.brk_base - start_kernel_map + c.phys_base

-- The pages that are set aside lie in the mapping of the kernel, and in memory.
pub record BrkFits (c : Setup) : Type 0 where
  pub above : start_kernel_map ≤ c.brk_base
  pub virtual : c.brk_base + c.brk_alloc_pages * 2 ^ 12 < 2 ^ 64
  pub physical : brk_phys c + c.brk_alloc_pages * 2 ^ 12 < 2 ^ 64
  pub few : c.brk_alloc_pages < 2 ^ 32

-- A page that is not left for new tables.
abbrev pub Outside : Setup → Tables → ℕ → Type 0
Outside c t page =
    (page < brk_phys c + t.next_page * 2 ^ 12) ⊎ (brk_phys c + c.brk_alloc_pages * 2 ^ 12 ≤ page)

-- No entry that is present is changed, but in the pages that are left for new tables.
pub record Kept (c : Setup) (t t' : Tables) : Type 0 where
  pub grown : t.next_page ≤ t'.next_page
  pub room : t'.next_page < c.brk_alloc_pages
  pub kept :
      (page i : ℕ) → Outside c t page → t.pages page i % 2 ≡ 1 → t'.pages page i ≡ t.pages page i

pub Kept-refl : (c : Setup) (t : Tables) → t.next_page < c.brk_alloc_pages → Kept c t t
Kept-refl c t h = record { grown = omega arith; room = h; kept = λ page i out e. refl }

pub Kept-trans : (c : Setup) (t t' t'' : Tables) → Kept c t t' → Kept c t' t'' → Kept c t t''
Kept-trans c t t' t'' k l =
    let g = k.grown in
    let h = l.grown in
    record {
      grown = omega arith;
      room = l.room;
      kept = λ page i out e.
          let first = k.kept page i out e in
          let still : Outside c t' page = elim out [
            | inl under ↦ inl (omega arith)
            | inr over ↦ inr over
          ] in
          l.kept page i still (ap (λ x. x % 2) first ∙ e) ∙ first;
    }

-- What `_PAGE_PRESENT` tests.
masked-present : (e m : ℕ) → m % 2 ≡ 1 → bit_and (bit_and e m) 1 ≡ e % 2
masked-present e m odd =
    let y = bit_and e m in
    let none : bit_and (y / 2) 0 ≡ 0 = bit_and-zero (y / 2) (y / 2) (omega arith) in
    omega (arith, bit_and_step y 1, bit_and_step e m, none)

pub pte_present_iff : (e : ℕ) → pte_present e ≡ (e % 2 == 1)
unfolding pte_present
pte_present_iff e = ground (arith, masked-present e (2 ^ 64 - 1 - pg_pfn_mask) refl)

flag_mask_odd : (k e : ℕ) → k < 51 → (2 ^ 64 - 1 - pfn_mask (suc k) e) % 2 ≡ 1
unfolding pfn_mask
flag_mask_odd k e h = elim (Bool-cases (bit_and e page_pse == 0)) [
  | inl small ↦ rw small refl
  | inr large ↦ rw large (omega (arith, pow-suc 2 k, pow_le (suc k) 52 (omega arith)))
]

pub large_present_iff : (k e : ℕ) → k < 51 → large_flag (suc k) page_present e ≡ (e % 2 == 1)
unfolding large_flag
large_present_iff k e h =
    ground (arith, masked-present e (2 ^ 64 - 1 - pfn_mask (suc k) e) (flag_mask_odd k e h))

pub absent : (e : ℕ) → (e % 2 == 1) ≡ false → e % 2 ≢ 1
absent e h q = ground arith

-- A store to an entry that was not present.
pub entry_set-Kept :
    (c : Setup) (table i e : ℕ) (t t' : Tables)
    → Kept c t t'
    → entry_at c table i t % 2 ≢ 1
    → Kept c t (entry_set c table i e t')
unfolding entry_set entry_at
entry_set-Kept c table i e t t' k free = record {
  grown = k.grown;
  room = k.room;
  kept = λ page j out p. elim (Bool-cases (page == pa c table && j == i)) [
    | inl same ↦
        let (at_page, at_i) = and_true (page == pa c table) (j == i) same in
        let page_is : page ≡ pa c table = ground arith in
        let i_is : j ≡ i = ground arith in
        absurd (
          free
            (ap (λ q. t.pages q i % 2) (sym page_is) ∙ ap (λ q. t.pages page q % 2) (sym i_is) ∙ p))
    | inr other ↦ rw other (k.kept page j out p)
  ];
}

pa-brk_end :
    (c : Setup) (t : Tables)
    → BrkFits c
    → t.next_page < c.brk_alloc_pages
    → pa c (brk_end c t) ≡ brk_phys c + t.next_page * 2 ^ 12
unfolding pa brk_end brk_phys
pa-brk_end c t fits room =
    let above = fits.above in
    let virtual = fits.virtual in
    let physical = fits.physical in
    let x = add64 c.brk_base (t.next_page * 2 ^ 12) in
    let x_is : x ≡ c.brk_base + t.next_page * 2 ^ 12 = omega arith in
    let y_is : sub64 x start_kernel_map ≡ x - start_kernel_map = omega (arith, x_is) in
    let less : ltb (sub64 x start_kernel_map) x ≡ true = ground (arith, x_is, y_is) in
    rw less (omega (arith, x_is, y_is))

alloc_page-Kept :
    (c : Setup) (t : Tables)
    → BrkFits c
    → t.next_page < c.brk_alloc_pages
    → Safe (λ (a : Allocated). Kept c t a.tables) (alloc_page c t)
unfolding alloc_page
alloc_page-Kept c t fits room =
    let few = fits.few in
    let next : (t.next_page + 1) % 2 ^ 32 ≡ t.next_page + 1 = omega arith in
    elim (Bool-cases (ltb ((t.next_page + 1) % 2 ^ 32) c.brk_alloc_pages)) [
      | inl e ↦ rw e (record {
        grown = omega (arith, next);
        room = ground arith;
        kept = λ page i out p. elim (Bool-cases (page == pa c (brk_end c t))) [
          | inl same ↦
              let at_page : page ≡ pa c (brk_end c t) = ground arith in
              absurd (omega (arith, at_page, pa-brk_end c t fits room, out))
          | inr other ↦ rw other refl
        ];
      })
      | inr e ↦ rw e tt
    ]

-- A new table is filled and entered.
pub enter-Kept :
    (c : Setup) (table i flags : ℕ) (t : Tables) (fill : ℕ → Tables → Run Tables)
    → BrkFits c
    → t.next_page < c.brk_alloc_pages
    → entry_at c table i t % 2 ≢ 1
    → ((page : ℕ) (t' : Tables)
        → t'.next_page < c.brk_alloc_pages
        → Safe (Kept c t') (fill page t'))
    → Safe (Kept c t) (
        alloc_page c t >>= λ a.
        fill a.page a.tables >>= λ t'. ok (entry_set c table i (bit_or (pa c a.page) flags) t'))
enter-Kept c table i flags t fill fits room free filled =
    Safe-bind (Kept c t) (alloc_page c t) _ (alloc_page-Kept c t fits room) (λ a k.
      Safe-bind (Kept c t) (fill a.page a.tables) _ (filled a.page a.tables k.room) (λ t' l.
        entry_set-Kept c table i (bit_or (pa c a.page) flags) t t' (Kept-trans c t a.tables t' k l)
          free))

pub Safe-if {ℓ} :
    {A : Type ℓ} (P : A → Type 0) (test : Bool) (a b : Run A)
    → Safe P a
    → Safe P b
    → Safe P (if test then a else b)
Safe-if P true a b h k = h
Safe-if P false a b h k = k
