-- ===== src/PageTable/Levels.antt =====
-- `physical_mapping_init` of arch/x86/ukernel/mm.c keeps the entries that are present.
use cyanea.Prelude.{
  ℕ, zero, suc, ◌-◌, ◌<◌, inl, inr, sym, ◌∙◌, bit_and, bit_or, ◌||◌, ltb, Run, ok, halt, ◌>>=◌,
  Safe, Safe-bind, Safe-mono, Bool-cases, arith,
}
use cyanea.PageTable.{PageSize}
use cyanea.PageTable.Tables.{
  Setup, Tables, start_kernel_map, va, pa, page_present, page_pse, pg_pfn_mask, kernpg_table,
  page_kernel, page_kernel_large, pfn_mask, pte_present, large_flag, check_pgprot, entry_at,
  entry_set, is_2m, is_1g, next_page_of, index, pt_loop, physical_pt_init, pmd_entry, pmd_loop,
  physical_pmd_init, pud_entry, pud_loop, physical_pud_init, pgd_entry, pgd_loop,
  physical_mapping_init,
}
use cyanea.PageTable.Kept.{
  BrkFits, Kept, Kept-refl, Kept-trans, pte_present_iff, large_present_iff, absent, entry_set-Kept,
  enter-Kept, Safe-if,
}

module _ (c : Setup) (fits : BrkFits c) where
  pt_loop-Kept :
      (pt left vaddr vaddr_end : ℕ) (t : Tables)
      → t.next_page < c.brk_alloc_pages
      → Safe (Kept c t) (pt_loop c pt left vaddr vaddr_end t)
  unfolding pt_loop
  pt_loop-Kept pt zero vaddr vaddr_end t room = Kept-refl c t room
  pt_loop-Kept pt (suc left) vaddr vaddr_end t room = elim (Bool-cases (ltb vaddr vaddr_end)) [
    | inr e ↦ rw (Safe, pt_loop, e) (Kept-refl c t room)
    | inl e ↦ elim (Bool-cases (pte_present (entry_at c pt (511 - left) t))) [
      | inl p ↦ rw (Safe, pt_loop, e, p) tt
      | inr p ↦
          let x = entry_at c pt (511 - left) t in
          let free = absent x (sym (pte_present_iff x) ∙ p) in
          let v = bit_or (pa c vaddr) (check_pgprot c page_kernel) in
          let t' = entry_set c pt (511 - left) v t in
          let k = entry_set-Kept c pt (511 - left) v t t (Kept-refl c t room) free in
          rw (pt_loop, e, p)
            (Safe-mono (Kept c t) _
              (pt_loop-Kept pt left (next_page_of 12 vaddr) vaddr_end t' k.room)
              (λ t'' l. Kept-trans c t t' t'' k l))
    ]
  ]

  physical_pt_init-Kept :
      (pt start end : ℕ) (t : Tables)
      → t.next_page < c.brk_alloc_pages
      → Safe (Kept c t) (physical_pt_init c pt start end t)
  unfolding physical_pt_init
  physical_pt_init-Kept pt start end t room =
      pt_loop-Kept pt (512 - index 12 (va start)) (va start) (va end) t room

  -- What follows keeps the entries too.
  pub then-Kept :
      (t : Tables) (r : Run Tables) (f : Tables → Run Tables)
      → Safe (Kept c t) r
      → ((t' : Tables) → t'.next_page < c.brk_alloc_pages → Safe (Kept c t') (f t'))
      → Safe (Kept c t) (r >>= f)
  then-Kept t r f k h =
      Safe-bind (Kept c t) r f k
        (λ t' l. Safe-mono (Kept c t) (f t') (h t' l.room) (λ t'' m. Kept-trans c t t' t'' l m))

  pmd_entry-Kept :
      (pmd i vaddr vaddr_end : ℕ) (ps : PageSize) (t : Tables)
      → t.next_page < c.brk_alloc_pages
      → Safe (Kept c t) (pmd_entry c pmd i vaddr vaddr_end ps t)
  unfolding pmd_entry
  pmd_entry-Kept pmd i vaddr vaddr_end ps t room =
      let x = entry_at c pmd i t in
      let fill = λ (pt : ℕ) (t' : Tables). physical_pt_init c pt (pa c vaddr) (pa c vaddr_end) t' in
      let filled = λ (pt : ℕ) (t' : Tables) (r : t'.next_page < c.brk_alloc_pages).
        physical_pt_init-Kept pt (pa c vaddr) (pa c vaddr_end) t' r in
      elim (Bool-cases (large_flag 21 page_present x)) [
        | inl p ↦
            rw (pmd_entry, p)
              (Safe-if (Kept c t) (is_2m ps || large_flag 21 page_pse x) halt
                (fill (va (bit_and x (pfn_mask 21 x))) t) tt
                (filled (va (bit_and x (pfn_mask 21 x))) t room))
        | inr p ↦
            let free = absent x (sym (large_present_iff 20 x (omega arith)) ∙ p) in
            let v = bit_or (pa c vaddr) (check_pgprot c page_kernel_large) in
            rw (pmd_entry, p)
              (Safe-if (Kept c t) (is_2m ps) (ok (entry_set c pmd i v t)) _
                (entry_set-Kept c pmd i v t t (Kept-refl c t room) free)
                (enter-Kept c pmd i kernpg_table t fill fits room free filled))
      ]

  pmd_loop-Kept :
      (pmd left vaddr vaddr_end : ℕ) (ps : PageSize) (t : Tables)
      → t.next_page < c.brk_alloc_pages
      → Safe (Kept c t) (pmd_loop c pmd left vaddr vaddr_end ps t)
  unfolding pmd_loop
  pmd_loop-Kept pmd zero vaddr vaddr_end ps t room = Kept-refl c t room
  pmd_loop-Kept pmd (suc left) vaddr vaddr_end ps t room = elim (Bool-cases (ltb vaddr vaddr_end)) [
    | inr e ↦ rw (Safe, pmd_loop, e) (Kept-refl c t room)
    | inl e ↦
        rw (pmd_loop, e)
          (then-Kept t (pmd_entry c pmd (511 - left) vaddr vaddr_end ps t) _
            (pmd_entry-Kept pmd (511 - left) vaddr vaddr_end ps t room)
            (λ t' r. pmd_loop-Kept pmd left (next_page_of 21 vaddr) vaddr_end ps t' r))
  ]

  physical_pmd_init-Kept :
      (pmd start end : ℕ) (ps : PageSize) (t : Tables)
      → t.next_page < c.brk_alloc_pages
      → Safe (Kept c t) (physical_pmd_init c pmd start end ps t)
  unfolding physical_pmd_init
  physical_pmd_init-Kept pmd start end ps t room =
      pmd_loop-Kept pmd (512 - index 21 (va start)) (va start) (va end) ps t room

  pud_entry-Kept :
      (pud i vaddr vaddr_end : ℕ) (ps : PageSize) (t : Tables)
      → t.next_page < c.brk_alloc_pages
      → Safe (Kept c t) (pud_entry c pud i vaddr vaddr_end ps t)
  unfolding pud_entry
  pud_entry-Kept pud i vaddr vaddr_end ps t room =
      let x = entry_at c pud i t in
      let fill =
        λ (pmd : ℕ) (t' : Tables). physical_pmd_init c pmd (pa c vaddr) (pa c vaddr_end) ps t' in
      let filled = λ (pmd : ℕ) (t' : Tables) (r : t'.next_page < c.brk_alloc_pages).
        physical_pmd_init-Kept pmd (pa c vaddr) (pa c vaddr_end) ps t' r in
      elim (Bool-cases (large_flag 30 page_present x)) [
        | inl p ↦
            rw (pud_entry, p)
              (Safe-if (Kept c t) (is_1g ps || large_flag 30 page_pse x) halt
                (fill (va (bit_and x (pfn_mask 30 x))) t) tt
                (filled (va (bit_and x (pfn_mask 30 x))) t room))
        | inr p ↦
            let free = absent x (sym (large_present_iff 29 x (omega arith)) ∙ p) in
            let v = bit_or (pa c vaddr) (check_pgprot c page_kernel_large) in
            rw (pud_entry, p)
              (Safe-if (Kept c t) (is_1g ps) (ok (entry_set c pud i v t)) _
                (entry_set-Kept c pud i v t t (Kept-refl c t room) free)
                (enter-Kept c pud i kernpg_table t fill fits room free filled))
      ]

  pud_loop-Kept :
      (pud left vaddr vaddr_end : ℕ) (ps : PageSize) (t : Tables)
      → t.next_page < c.brk_alloc_pages
      → Safe (Kept c t) (pud_loop c pud left vaddr vaddr_end ps t)
  unfolding pud_loop
  pud_loop-Kept pud zero vaddr vaddr_end ps t room = Kept-refl c t room
  pud_loop-Kept pud (suc left) vaddr vaddr_end ps t room = elim (Bool-cases (ltb vaddr vaddr_end)) [
    | inr e ↦ rw (Safe, pud_loop, e) (Kept-refl c t room)
    | inl e ↦
        rw (pud_loop, e)
          (then-Kept t (pud_entry c pud (511 - left) vaddr vaddr_end ps t) _
            (pud_entry-Kept pud (511 - left) vaddr vaddr_end ps t room)
            (λ t' r. pud_loop-Kept pud left (next_page_of 30 vaddr) vaddr_end ps t' r))
  ]

  physical_pud_init-Kept :
      (pud start end : ℕ) (ps : PageSize) (t : Tables)
      → t.next_page < c.brk_alloc_pages
      → Safe (Kept c t) (physical_pud_init c pud start end ps t)
  unfolding physical_pud_init
  physical_pud_init-Kept pud start end ps t room =
      pud_loop-Kept pud (512 - index 30 (va start)) (va start) (va end) ps t room

  pgd_entry-Kept :
      (i vaddr vaddr_end : ℕ) (ps : PageSize) (t : Tables)
      → t.next_page < c.brk_alloc_pages
      → Safe (Kept c t) (pgd_entry c i vaddr vaddr_end ps t)
  unfolding pgd_entry
  pgd_entry-Kept i vaddr vaddr_end ps t room =
      let x = entry_at c c.init_top_pgt i t in
      let fill =
        λ (pud : ℕ) (t' : Tables). physical_pud_init c pud (pa c vaddr) (pa c vaddr_end) ps t' in
      let filled = λ (pud : ℕ) (t' : Tables) (r : t'.next_page < c.brk_alloc_pages).
        physical_pud_init-Kept pud (pa c vaddr) (pa c vaddr_end) ps t' r in
      elim (Bool-cases (pte_present x)) [
        | inl p ↦ rw (pgd_entry, p) (filled (va (bit_and x pg_pfn_mask)) t room)
        | inr p ↦
            let free = absent x (sym (pte_present_iff x) ∙ p) in
            rw (pgd_entry, p)
              (enter-Kept c c.init_top_pgt i kernpg_table t fill fits room free filled)
      ]

  pgd_loop-Kept :
      (left vaddr vaddr_end : ℕ) (ps : PageSize) (t : Tables)
      → t.next_page < c.brk_alloc_pages
      → Safe (Kept c t) (pgd_loop c left vaddr vaddr_end ps t)
  unfolding pgd_loop
  pgd_loop-Kept zero vaddr vaddr_end ps t room = Kept-refl c t room
  pgd_loop-Kept (suc left) vaddr vaddr_end ps t room = elim (Bool-cases (ltb vaddr vaddr_end)) [
    | inr e ↦ rw (Safe, pgd_loop, e) (Kept-refl c t room)
    | inl e ↦
        rw (pgd_loop, e)
          (then-Kept t (pgd_entry c (511 - left) vaddr vaddr_end ps t) _
            (pgd_entry-Kept (511 - left) vaddr vaddr_end ps t room)
            (λ t' r. pgd_loop-Kept left (next_page_of 39 vaddr) vaddr_end ps t' r))
  ]

  pub physical_mapping_init-Kept :
      (start end : ℕ) (ps : PageSize) (t : Tables)
      → t.next_page < c.brk_alloc_pages
      → Safe (Kept c t) (physical_mapping_init c start end ps t)
  unfolding physical_mapping_init
  physical_mapping_init-Kept start end ps t room =
      Safe-if (Kept c t) (ltb (va end) start_kernel_map)
        (pgd_loop c (512 - index 39 (va start)) (va start) (va end) ps t) halt
        (pgd_loop-Kept (512 - index 39 (va start)) (va start) (va end) ps t room) tt
