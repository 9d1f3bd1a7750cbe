-- ===== src/PageTable/Direct.antt =====
-- `init_range_memory_mapping` of arch/x86/ukernel/mm.c: the ranges of ukernel/memblock.c are entered
-- into the tables.
use cyanea.Prelude.{
  ℕ, zero, suc, ◌+◌, ◌*◌, ◌/◌, ◌%◌, ◌^◌, ◌≤◌, ◌<◌, ◌≡◌, refl, min, max, List, [], ◌∷◌, Option, none,
  some, ltb, leb, if◌then◌else◌, length, Run, ok, timeout, ◌>>=◌, Safe, Safe-bind, Safe-mono,
  Bool-cases, arith, inl, inr,
}
use cyanea.Align.{pfn_down}
use cyanea.Memblock.Alloc.{clamp, PfnRange, next_mem_pfn_range}
use cyanea.Memblock.Regions.{Memblock, no_node}
use cyanea.PageTable.{Piece, range_pieces}
use cyanea.PageTable.Tables.{Setup, Tables, physical_mapping_init}
use cyanea.PageTable.Kept.{BrkFits, Kept, Kept-refl, Kept-trans, Safe-if}
use cyanea.PageTable.Levels.{then-Kept, physical_mapping_init-Kept}
use cyanea.Memblock.Alloc.Ranges.{next_mem_pfn_range-index}

-- The tables, `max_low_pfn_mapped` and `max_pfn_mapped`.
pub record Direct : Type 0 where
  pub tables : Tables
  pub max_low_pfn_mapped : ℕ
  pub max_pfn_mapped : ℕ

-- `PFN_PHYS`
abbrev pub pfn_phys : ℕ → ℕ
pfn_phys x = x * 2 ^ 12 % 2 ^ 64

unfoldable pub add_range_mapped : ℕ → ℕ → Direct → Direct
add_range_mapped start_pfn end_pfn d = record {
  tables = d.tables;
  max_low_pfn_mapped =
      if ltb start_pfn (2 ^ 20)
      then max d.max_low_pfn_mapped (min end_pfn (2 ^ 20))
      else d.max_low_pfn_mapped;
  max_pfn_mapped = max d.max_pfn_mapped end_pfn;
}

unfoldable pub map_pieces : Setup → List Piece → Tables → Run Tables
map_pieces c [] t = ok t
map_pieces c (p ∷ pieces) t =
    physical_mapping_init c (pfn_phys p.start_pfn) (pfn_phys p.end_pfn) p.ps t
    >>= map_pieces c pieces

-- The body of the loop, for one range.
unfoldable pub map_range : Setup → ℕ → ℕ → PfnRange → Direct → Run Direct
map_range c range_start range_end r d =
    let start = clamp (pfn_phys r.start_pfn) range_start range_end in
    let end = clamp (pfn_phys r.end_pfn) range_start range_end in
    if leb end start
    then ok d
    else map_pieces c (range_pieces (pfn_down start) (pfn_down end)) d.tables >>= λ t.
        ok (add_range_mapped (start / 2 ^ 12) (end / 2 ^ 12) (record d { tables = t }))

-- `for_each_mem_pfn_range`, from the region `i` on.
unfoldable pub range_loop : ℕ → Setup → Memblock → ℕ → ℕ → ℕ → Direct → Run Direct
range_loop zero c m i range_start range_end d = timeout
range_loop (suc fuel) c m i range_start range_end d = elim (next_mem_pfn_range i no_node m) [
  | none ↦ ok d
  | some r ↦
      map_range c range_start range_end r d
      >>= range_loop fuel c m (r.index + 1) range_start range_end
]

unfoldable pub init_range_memory_mapping : Setup → Memblock → ℕ → ℕ → Direct → Run Direct
init_range_memory_mapping c m range_start range_end d =
    range_loop (suc (length m.live)) c m 0 range_start range_end d

-- What a call leaves: the entries that were present, and bounds that have not gone down, of which the
-- lower one stays below 4 GiB and the other one.
pub record Advanced (c : Setup) (d d' : Direct) : Type 0 where
  pub entries : Kept c d.tables d'.tables
  pub low : d.max_low_pfn_mapped ≤ d'.max_low_pfn_mapped
  pub high : d.max_pfn_mapped ≤ d'.max_pfn_mapped
  pub ordered :
      d.max_low_pfn_mapped ≤ min d.max_pfn_mapped (2 ^ 20)
      → d'.max_low_pfn_mapped ≤ min d'.max_pfn_mapped (2 ^ 20)

add_range_mapped-Advanced :
    (c : Setup) (start_pfn end_pfn : ℕ) (d : Direct) (t : Tables)
    → Kept c d.tables t
    → Advanced c d (add_range_mapped start_pfn end_pfn (record d { tables = t }))
unfolding add_range_mapped
add_range_mapped-Advanced c start_pfn end_pfn d t k = elim (Bool-cases (ltb start_pfn (2 ^ 20))) [
  | inl e ↦ record {
    entries = k;
    low = rw e (omega arith);
    high = omega arith;
    ordered = λ h. rw e (omega (arith, h));
  }
  | inr e ↦ record {
    entries = k;
    low = rw e (omega arith);
    high = omega arith;
    ordered = λ h. rw e (omega (arith, h));
  }
]

Advanced-trans :
    (c : Setup) (d d' d'' : Direct) → Advanced c d d' → Advanced c d' d'' → Advanced c d d''
Advanced-trans c d d' d'' a b =
    let low = a.low in
    let low' = b.low in
    let high = a.high in
    let high' = b.high in
    record {
      entries = Kept-trans c d.tables d'.tables d''.tables a.entries b.entries;
      low = omega arith;
      high = omega arith;
      ordered = λ h. b.ordered (a.ordered h);
    }

next_cases :
    {P : Type 0} (o : Option PfnRange) → (o ≡ none → P) → ((r : PfnRange) → o ≡ some r → P) → P
next_cases none last more = last refl
next_cases (some r) last more = more r refl

module _ (c : Setup) (fits : BrkFits c) where
  map_pieces-Kept :
      (pieces : List Piece) (t : Tables)
      → t.next_page < c.brk_alloc_pages
      → Safe (Kept c t) (map_pieces c pieces t)
  unfolding map_pieces
  map_pieces-Kept [] t room = Kept-refl c t room
  map_pieces-Kept (p ∷ pieces) t room =
      let from = pfn_phys p.start_pfn in
      let to = pfn_phys p.end_pfn in
      then-Kept c fits t (physical_mapping_init c from to p.ps t) (map_pieces c pieces)
        (physical_mapping_init-Kept c fits from to p.ps t room)
        (λ t' r. map_pieces-Kept pieces t' r)

  Advanced-refl : (d : Direct) → d.tables.next_page < c.brk_alloc_pages → Advanced c d d
  Advanced-refl d room = record {
    entries = Kept-refl c d.tables room;
    low = omega arith;
    high = omega arith;
    ordered = λ h. h;
  }

  map_range-Advanced :
      (range_start range_end : ℕ) (r : PfnRange) (d : Direct)
      → d.tables.next_page < c.brk_alloc_pages
      → Safe (Advanced c d) (map_range c range_start range_end r d)
  unfolding map_range
  map_range-Advanced range_start range_end r d room =
      let start = clamp (pfn_phys r.start_pfn) range_start range_end in
      let end = clamp (pfn_phys r.end_pfn) range_start range_end in
      let pieces = range_pieces (pfn_down start) (pfn_down end) in
      Safe-if (Advanced c d) (leb end start) (ok d) _ (Advanced-refl d room) (
        Safe-bind (Advanced c d) (map_pieces c pieces d.tables) _
          (map_pieces-Kept pieces d.tables room)
          (λ t k. add_range_mapped-Advanced c (start / 2 ^ 12) (end / 2 ^ 12) d t k))

  range_loop-Advanced :
      (fuel : ℕ) (m : Memblock) (i range_start range_end : ℕ) (d : Direct)
      → d.tables.next_page < c.brk_alloc_pages
      → i ≤ length m.live
      → length m.live < i + fuel
      → Safe (Advanced c d) (range_loop fuel c m i range_start range_end d)
  unfolding range_loop
  range_loop-Advanced zero m i range_start range_end d room inside enough = absurd (omega arith)
  range_loop-Advanced (suc fuel) m i range_start range_end d room inside enough =
      next_cases (next_mem_pfn_range i no_node m)
        (λ e. rw (Safe, range_loop, e) (Advanced-refl d room))
        (λ r e.
          let (lo, hi) = next_mem_pfn_range-index i no_node m r e in
          rw (Safe, range_loop, e)
            (Safe-bind (Advanced c d) (map_range c range_start range_end r d) _
              (map_range-Advanced range_start range_end r d room)
              (λ d' a.
                Safe-mono (Advanced c d) _
                  (range_loop-Advanced fuel m (r.index + 1) range_start range_end d' a.entries.room
                    (omega arith) (omega arith))
                  (λ d'' b. Advanced-trans c d d' d'' a b))))

  pub init_range_memory_mapping-Advanced :
      (m : Memblock) (range_start range_end : ℕ) (d : Direct)
      → d.tables.next_page < c.brk_alloc_pages
      → Safe (Advanced c d) (init_range_memory_mapping c m range_start range_end d)
  unfolding init_range_memory_mapping
  init_range_memory_mapping-Advanced m range_start range_end d room =
      range_loop-Advanced (suc (length m.live)) m 0 range_start range_end d room (omega arith)
        (omega arith)
