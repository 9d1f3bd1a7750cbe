-- ===== src/Ioremap/Pages.antt =====
-- arch/x86/ukernel/ioremap.c: the temporary mappings, in `level1_fixmap_pgt[0]`.
use cyanea.Prelude.{
  ℕ, zero, suc, ◌-◌, ◌*◌, ◌/◌, ◌%◌, ◌^◌, bit_and, bit_or, ◌&&◌, ◌||◌, Option, none, some, ltb, leb,
  ◌==◌, if◌then◌else◌, get_elem?, set, add64, sub64, Run, ok, halt, fault, ◌>>=◌,
}
use cyanea.Align.{align_kernel, page_size}
use cyanea.Ioremap.{total, Mapping, find_free_range}
use cyanea.PageTable.Tables.{page_kernel, index}

-- `mapping`, and the entries of the table.
pub record Fixed : Type 0 where
  pub mapping : Mapping
  pub fixmap_pgt : ℕ → ℕ

-- `FIX_BITMAP_END` and `FIX_BITMAP_BEGIN`
abbrev pub fix_bitmap_end : ℕ
fix_bitmap_end = 512

abbrev pub fix_bitmap_begin : ℕ
fix_bitmap_begin = 1023

-- `FIX_TOP_ADDR`, `fix_to_virt` and `virt_to_fix`
abbrev pub fix_top_addr : ℕ
fix_top_addr = 2 ^ 64 - 2 ^ 12

unfoldable pub fix_to_virt : ℕ → ℕ
fix_to_virt x = sub64 fix_top_addr (x * 2 ^ 12)

unfoldable pub virt_to_fix : ℕ → ℕ
virt_to_fix x = sub64 fix_top_addr (bit_and x (2 ^ 64 - 2 ^ 12)) / 2 ^ 12

-- `____set_fixmap`: what is stored.
unfoldable pub fixmap_entry : ℕ → ℕ → ℕ → ℕ
fixmap_entry mask phys_addr prot =
    let pgprot = bit_and prot mask in
    if pgprot == 0 then 0 else bit_or (bit_and phys_addr (2 ^ 64 - 2 ^ 12)) pgprot

-- `__set_fixmap`, where `mask` is `__supported_pte_mask`.
unfoldable pub set_fixmap : ℕ → ℕ → ℕ → ℕ → Fixed → Run Fixed
set_fixmap mask idx phys_addr prot t =
    if leb fix_bitmap_end idx && leb idx fix_bitmap_begin
    then ok (record t {
      fixmap_pgt = λ i.
          if i == index 12 (fix_to_virt idx)
          then fixmap_entry mask phys_addr prot
          else t.fixmap_pgt i;
    })
    else halt

-- The loop over the pages, from the slot `i` down.
unfoldable pub map_loop : ℕ → ℕ → ℕ → ℕ → ℕ → Fixed → Run Fixed
map_loop mask zero i phys_addr prot t = ok t
map_loop mask (suc nrpages) i phys_addr prot t =
    set_fixmap mask i phys_addr prot t
    >>= map_loop mask nrpages (sub64 i 1) (add64 phys_addr page_size) prot

-- `PAGE_ALIGN(end) - phys_addr`, in pages.
unfoldable pub nr_pages : ℕ → ℕ → ℕ
nr_pages phys_addr size =
    sub64 (align_kernel (add64 phys_addr size) page_size) (bit_and phys_addr (2 ^ 64 - 2 ^ 12))
    / 2 ^ 12
    % 2 ^ 32

unfoldable pub ioremap_prot : ℕ → ℕ → ℕ → ℕ → Fixed → Run (Option ℕ × Fixed)
ioremap_prot mask phys_addr size prot t =
    let nrpages = nr_pages phys_addr size in
    if size == 0 || ltb total nrpages
    then ok (none, t)
    else find_free_range nrpages t.mapping >>= λ (found, mapping). elim found [
      | none ↦ ok (none, t)
      | some start ↦
          map_loop mask nrpages (fix_bitmap_begin - start) (bit_and phys_addr (2 ^ 64 - 2 ^ 12))
            prot (record t { mapping = mapping })
          >>= λ t'. ok (
            some (add64 (fix_to_virt (fix_bitmap_begin - start)) (bit_and phys_addr (2 ^ 12 - 1))),
            t',
          )
    ]

unfoldable pub memremap : ℕ → ℕ → ℕ → Fixed → Run (Option ℕ × Fixed)
memremap mask phys_addr size t = ioremap_prot mask phys_addr size page_kernel t

-- `mapping[i]` of a slot, and -1 as a length.
unfoldable pub same_pages : Option ℕ → ℕ → ℕ
same_pages none nrpages = if nrpages == 2 ^ 32 - 1 then 1 else 0
same_pages (some len) nrpages = if len == nrpages then 1 else 0

unfoldable pub iounmap : ℕ → ℕ → ℕ → Fixed → Run Fixed
iounmap mask virt_addr size t =
    if virt_addr == 0
      || ltb virt_addr (fix_to_virt fix_bitmap_begin)
      || ltb (fix_to_virt fix_bitmap_end) virt_addr
    then ok t
    else (let slot = virt_to_fix virt_addr in
        let nrpages =
          align_kernel (add64 (bit_and virt_addr (2 ^ 12 - 1)) size) page_size / 2 ^ 12 % 2 ^ 32 in
        let start = fix_bitmap_begin - slot in
        elim (get_elem? t.mapping start) [
          | none ↦ fault
          | some len ↦
              if same_pages len nrpages == 0
              then ok t
              else map_loop mask nrpages slot 0 0 t >>= λ t'.
                  ok (record t' { mapping = set t'.mapping start none })
        ])
