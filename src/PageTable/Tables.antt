-- ===== src/PageTable/Tables.antt =====
-- The tables of the direct mapping, and the functions of arch/x86/ukernel/mm.c that fill them.
use cyanea.Prelude.{
  ℕ, zero, suc, ◌+◌, ◌-◌, ◌*◌, ◌/◌, ◌%◌, ◌^◌, bit_and, bit_or, Bool, true, false, not, ◌&&◌, ◌||◌,
  ltb, ◌==◌, if◌then◌else◌, add64, sub64, Run, ok, halt, ◌>>=◌,
}
use cyanea.PageTable.{PageSize, page_size_4k, page_size_2m, page_size_1g}

-- What the linker and the configuration fix, and `phys_base` and `__supported_pte_mask`.
pub record Setup : Type 0 where
  pub brk_base : ℕ
  pub brk_alloc_pages : ℕ
  pub init_top_pgt : ℕ
  pub phys_base : ℕ
  pub supported_pte_mask : ℕ

-- The entries of each table, which has the physical address of its page, and `next_page`.
pub record Tables : Type 0 where
  pub pages : ℕ → ℕ → ℕ
  pub next_page : ℕ

abbrev pub page_offset : ℕ
page_offset = 0xFFFFFF8000000000

abbrev pub start_kernel_map : ℕ
start_kernel_map = 0xFFFFFFFF80000000

-- `__va` and `__pa`
unfoldable pub va : ℕ → ℕ
va x = add64 x page_offset

unfoldable pub pa : Setup → ℕ → ℕ
pa c x =
    let y = sub64 x start_kernel_map in
    add64 y (if ltb y x then c.phys_base else sub64 start_kernel_map page_offset)

-- `_PAGE_PRESENT`, `_PAGE_PSE`, `PG_PFN_MASK` and the masks of large pages.
abbrev pub page_present : ℕ
page_present = 1

abbrev pub page_pse : ℕ
page_pse = 2 ^ 7

abbrev pub pg_pfn_mask : ℕ
pg_pfn_mask = 2 ^ 52 - 2 ^ 12

-- `PAGE_KERNEL`, `PAGE_KERNEL_LARGE` and `_KERNPG_TABLE`
abbrev pub page_kernel : ℕ
page_kernel = 1 + 2 ^ 1 + 2 ^ 5 + 2 ^ 6 + 2 ^ 8 + 2 ^ 63

abbrev pub page_kernel_large : ℕ
page_kernel_large = 1 + 2 ^ 1 + 2 ^ 5 + 2 ^ 6 + 2 ^ 7 + 2 ^ 8 + 2 ^ 63

abbrev pub kernpg_table : ℕ
kernpg_table = 1 + 2 ^ 1 + 2 ^ 5 + 2 ^ 6

-- The mask of the frame in an entry whose large page has 2^shift bytes.
unfoldable pub pfn_mask : ℕ → ℕ → ℕ
pfn_mask shift e = if bit_and e page_pse == 0 then pg_pfn_mask else 2 ^ 52 - 2 ^ shift

-- `pte_flags(e) & _PAGE_PRESENT`, which `pgd_flags` computes too; `pmd_flags` and `pud_flags`.
unfoldable pub pte_present : ℕ → Bool
pte_present e = not (bit_and (bit_and e (2 ^ 64 - 1 - pg_pfn_mask)) page_present == 0)

unfoldable pub large_flag : ℕ → ℕ → ℕ → Bool
large_flag shift flag e = not (bit_and (bit_and e (2 ^ 64 - 1 - pfn_mask shift e)) flag == 0)

unfoldable pub check_pgprot : Setup → ℕ → ℕ
check_pgprot c prot =
    if bit_and prot page_present == 0 then prot else bit_and prot c.supported_pte_mask

-- An entry of the table that a pointer points to, and a store to it.
unfoldable pub entry_at : Setup → ℕ → ℕ → Tables → ℕ
entry_at c table i t = t.pages (pa c table) i

unfoldable pub entry_set : Setup → ℕ → ℕ → ℕ → Tables → Tables
entry_set c table i e t = record t {
  pages = λ page j. if page == pa c table && j == i then e else t.pages page j;
}

-- `__brk_end`
unfoldable pub brk_end : Setup → Tables → ℕ
brk_end c t = add64 c.brk_base (t.next_page * 2 ^ 12)

pub record Allocated : Type 0 where
  pub page : ℕ
  pub tables : Tables

-- `alloc_pages(1)`
unfoldable pub alloc_page : Setup → Tables → Run Allocated
alloc_page c t =
    if ltb ((t.next_page + 1) % 2 ^ 32) c.brk_alloc_pages
    then ok (record {
      page = brk_end c t;
      tables = record {
        pages = λ page i. if page == pa c (brk_end c t) then 0 else t.pages page i;
        next_page = (t.next_page + 1) % 2 ^ 32;
      };
    })
    else halt

unfoldable pub is_2m : PageSize → Bool
is_2m page_size_4k = false
is_2m page_size_2m = true
is_2m page_size_1g = false

unfoldable pub is_1g : PageSize → Bool
is_1g page_size_4k = false
is_1g page_size_2m = false
is_1g page_size_1g = true

-- `pte_index`, `pmd_index`, `pud_index` and `pgd_index`
unfoldable pub index : ℕ → ℕ → ℕ
index shift a = bit_and (a / 2 ^ shift) 511

-- `(vaddr & MASK) + SIZE`, for pages of 2^shift bytes.
unfoldable pub next_page_of : ℕ → ℕ → ℕ
next_page_of shift vaddr = add64 (bit_and vaddr (2 ^ 64 - 2 ^ shift)) (2 ^ shift)

-- The loops count the entries that are left in the table.
unfoldable pub pt_loop : Setup → ℕ → ℕ → ℕ → ℕ → Tables → Run Tables
pt_loop c pt zero vaddr vaddr_end t = ok t
pt_loop c pt (suc left) vaddr vaddr_end t = elim (ltb vaddr vaddr_end) [
  | false ↦ ok t
  | true ↦
      let i = 511 - left in
      elim (pte_present (entry_at c pt i t)) [
        | true ↦ halt
        | false ↦
            pt_loop c pt left (next_page_of 12 vaddr) vaddr_end
              (entry_set c pt i (bit_or (pa c vaddr) (check_pgprot c page_kernel)) t)
      ]
]

unfoldable pub physical_pt_init : Setup → ℕ → ℕ → ℕ → Tables → Run Tables
physical_pt_init c pt start end t =
    let vaddr = va start in pt_loop c pt (512 - index 12 vaddr) vaddr (va end) t

-- One round of `physical_pmd_init`.
unfoldable pub pmd_entry : Setup → ℕ → ℕ → ℕ → ℕ → PageSize → Tables → Run Tables
pmd_entry c pmd i vaddr vaddr_end ps t =
    let e = entry_at c pmd i t in
    let fill : ℕ → Tables → Run Tables =
      λ pt t'. physical_pt_init c pt (pa c vaddr) (pa c vaddr_end) t' in
    elim (large_flag 21 page_present e) [
      | true ↦
          if is_2m ps || large_flag 21 page_pse e
          then halt
          else fill (va (bit_and e (pfn_mask 21 e))) t
      | false ↦
          if is_2m ps
          then ok (entry_set c pmd i (bit_or (pa c vaddr) (check_pgprot c page_kernel_large)) t)
          else alloc_page c t >>= λ a. fill a.page a.tables >>= λ t'.
              ok (entry_set c pmd i (bit_or (pa c a.page) kernpg_table) t')
    ]

unfoldable pub pmd_loop : Setup → ℕ → ℕ → ℕ → ℕ → PageSize → Tables → Run Tables
pmd_loop c pmd zero vaddr vaddr_end ps t = ok t
pmd_loop c pmd (suc left) vaddr vaddr_end ps t = elim (ltb vaddr vaddr_end) [
  | false ↦ ok t
  | true ↦
      pmd_entry c pmd (511 - left) vaddr vaddr_end ps t
      >>= pmd_loop c pmd left (next_page_of 21 vaddr) vaddr_end ps
]

unfoldable pub physical_pmd_init : Setup → ℕ → ℕ → ℕ → PageSize → Tables → Run Tables
physical_pmd_init c pmd start end ps t =
    let vaddr = va start in pmd_loop c pmd (512 - index 21 vaddr) vaddr (va end) ps t

-- One round of `physical_pud_init`.
unfoldable pub pud_entry : Setup → ℕ → ℕ → ℕ → ℕ → PageSize → Tables → Run Tables
pud_entry c pud i vaddr vaddr_end ps t =
    let e = entry_at c pud i t in
    let fill : ℕ → Tables → Run Tables =
      λ pmd t'. physical_pmd_init c pmd (pa c vaddr) (pa c vaddr_end) ps t' in
    elim (large_flag 30 page_present e) [
      | true ↦
          if is_1g ps || large_flag 30 page_pse e
          then halt
          else fill (va (bit_and e (pfn_mask 30 e))) t
      | false ↦
          if is_1g ps
          then ok (entry_set c pud i (bit_or (pa c vaddr) (check_pgprot c page_kernel_large)) t)
          else alloc_page c t >>= λ a. fill a.page a.tables >>= λ t'.
              ok (entry_set c pud i (bit_or (pa c a.page) kernpg_table) t')
    ]

unfoldable pub pud_loop : Setup → ℕ → ℕ → ℕ → ℕ → PageSize → Tables → Run Tables
pud_loop c pud zero vaddr vaddr_end ps t = ok t
pud_loop c pud (suc left) vaddr vaddr_end ps t = elim (ltb vaddr vaddr_end) [
  | false ↦ ok t
  | true ↦
      pud_entry c pud (511 - left) vaddr vaddr_end ps t
      >>= pud_loop c pud left (next_page_of 30 vaddr) vaddr_end ps
]

unfoldable pub physical_pud_init : Setup → ℕ → ℕ → ℕ → PageSize → Tables → Run Tables
physical_pud_init c pud start end ps t =
    let vaddr = va start in pud_loop c pud (512 - index 30 vaddr) vaddr (va end) ps t

-- One round of `physical_mapping_init`.
unfoldable pub pgd_entry : Setup → ℕ → ℕ → ℕ → PageSize → Tables → Run Tables
pgd_entry c i vaddr vaddr_end ps t =
    let e = entry_at c c.init_top_pgt i t in
    let fill : ℕ → Tables → Run Tables =
      λ pud t'. physical_pud_init c pud (pa c vaddr) (pa c vaddr_end) ps t' in
    elim (pte_present e) [
      | true ↦ fill (va (bit_and e pg_pfn_mask)) t
      | false ↦ alloc_page c t >>= λ a. fill a.page a.tables >>= λ t'.
          ok (entry_set c c.init_top_pgt i (bit_or (pa c a.page) kernpg_table) t')
    ]

unfoldable pub pgd_loop : Setup → ℕ → ℕ → ℕ → PageSize → Tables → Run Tables
pgd_loop c zero vaddr vaddr_end ps t = ok t
pgd_loop c (suc left) vaddr vaddr_end ps t = elim (ltb vaddr vaddr_end) [
  | false ↦ ok t
  | true ↦
      pgd_entry c (511 - left) vaddr vaddr_end ps t
      >>= pgd_loop c left (next_page_of 39 vaddr) vaddr_end ps
]

unfoldable pub physical_mapping_init : Setup → ℕ → ℕ → PageSize → Tables → Run Tables
physical_mapping_init c start end ps t =
    let vaddr = va start in
    if ltb (va end) start_kernel_map
    then pgd_loop c (512 - index 39 vaddr) vaddr (va end) ps t
    else halt

-- The tables that the start-up code has set up.
pub record Kernel : Type 0 where
  pub level3_kernel_pgt : ℕ
  pub level2_kernel_pgt : ℕ
  pub level2_fixmap_pgt : ℕ

unfoldable pub init__init_top_pgt : Setup → Kernel → Tables → Tables
init__init_top_pgt c k t =
    let pgd = entry_set c c.init_top_pgt (index 39 start_kernel_map) in
    let pud : ℕ → ℕ → Tables → Tables =
      λ i level2. entry_set c k.level3_kernel_pgt i (bit_or (pa c level2) kernpg_table) in
    pud (index 30 start_kernel_map + 1) k.level2_fixmap_pgt (
      pud (index 30 start_kernel_map) k.level2_kernel_pgt
        (pgd (bit_or (pa c k.level3_kernel_pgt) kernpg_table) t))
