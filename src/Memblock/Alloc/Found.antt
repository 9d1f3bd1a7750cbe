-- ===== src/Memblock/Alloc/Found.antt =====
-- What `find_in_range_node` of ukernel/memblock.c finds, and what `memblock_alloc` gives out.
use cyanea.Prelude.{
  ℕ, ◌+◌, ◌*◌, ◌^◌, ◌≤◌, ◌<◌, ◌≡◌, ◌≢◌, ◌⊎◌, refl, sym, ap, ◌∙◌, inl, inr, max, Bool, true, false,
  not, ◌&&◌, List, [], ◌∷◌, some, arith, Bool-cases, ltb, leb, ◌==◌, if◌then◌else◌, length, sub64,
  ok, Returns, returns, Returns-bind, Returns_mono,
}
use cyanea.Align.{align_kernel, align_kernel_lem, page_size}
use cyanea.Memblock.Regions.{
  Region, Memblock, region_end, memblock_none, memblock_reserved, no_node,
}
use cyanea.Memblock.Shape.{Chain, view, view_below, Attr, attr}
use cyanea.Memblock.Good.{Good}
use cyanea.Memblock.Isolate.{success, enospc}
use cyanea.Memblock.Update.View.{memblock_setclr_flag-view, mark_attr}
use cyanea.Memblock.Update.Marked.{changed}
use cyanea.Memblock.Alloc.{
  Request, clamp, find_loop, find_in_range_node, alloc_round, memblock_alloc,
}

-- The range from `p` on answers the request: it lies in one region with the right flags and node.
pub record Found (q : Request) (nid : ℕ) (rs : List Region) (p : ℕ) : Type 0 where
  pub held_by : Attr
  pub right_flags : held_by.flags ≡ q.flags
  pub right_node : (nid ≡ no_node) ⊎ (nid ≡ held_by.nid)
  pub multiple : ℕ
  pub aligned : p ≡ multiple * q.align
  pub low : q.start ≤ p
  pub high : p + q.size ≤ q.end
  pub held : (a : ℕ) → p ≤ a → a < p + q.size → view rs a ≡ some held_by

module _ (q : Request) (nid k : ℕ) (power : q.align ≡ 2 ^ k) (bits : k < 64)
    (wide : q.start ≤ q.end) (fits : q.end < 2 ^ 64) where
  chosen :
      (r : Region) (rs : List Region)
      → r.base + r.size < 2 ^ 64
      → r.flags ≡ q.flags
      → (nid ≡ no_node) ⊎ (nid ≡ r.nid)
      → let base = align_kernel (clamp r.base q.start q.end) q.align in
        let r_end = clamp (region_end r) q.start q.end in
        base < r_end → q.size ≤ sub64 r_end base → base ≢ 0 → Found q nid (r ∷ rs) base
  chosen r rs h f n lt room some_base =
      go (align_kernel_lem (clamp r.base q.start q.end) k (omega arith) bits)
    where
      go :
          (m : ℕ) × (align_kernel (clamp r.base q.start q.end) (2 ^ k) ≡ m * 2 ^ k)
            × ((m ≡ 0)
                ⊎ ((clamp r.base q.start q.end ≤ m * 2 ^ k)
                    × (m * 2 ^ k < clamp r.base q.start q.end + 2 ^ k)))
          → Found q nid (r ∷ rs) (align_kernel (clamp r.base q.start q.end) q.align)
      go (m, e, inl z) = absurd (
          some_base (
            ap (align_kernel (clamp r.base q.start q.end)) power
            ∙ e
            ∙ ap (λ t. t * 2 ^ k) z
            ∙ omega arith))
      go (m, e, inr (lo, hi)) =
          let at : align_kernel (clamp r.base q.start q.end) q.align ≡ m * 2 ^ k =
            ap (align_kernel (clamp r.base q.start q.end)) power ∙ e in
          record {
            held_by = attr r;
            right_flags = f;
            right_node = n;
            multiple = m;
            aligned = at ∙ ap (λ t. m * t) (sym power);
            low = omega (arith, at);
            high = omega (arith, at);
            held = λ a p l.
                let inside : (r.base ≤ a) × (a < r.base + r.size) = omega (arith, at) in
                ground arith;
          }

  -- What is found behind a region is found with it too.
  Found-later :
      (r : Region) (rs : List Region) (p : ℕ)
      → Chain (r.base + r.size) rs
      → Found q nid rs p
      → Found q nid (r ∷ rs) p
  Found-later r rs p c f = record {
    held_by = f.held_by;
    right_flags = f.right_flags;
    right_node = f.right_node;
    multiple = f.multiple;
    aligned = f.aligned;
    low = f.low;
    high = f.high;
    held = λ a lo hi. ground (arith, f.held a lo hi, view_below (r.base + r.size) a rs c);
  }

  pub find_loop-Found :
      (lo : ℕ) (rs : List Region)
      → Chain lo rs
      → find_loop q nid rs ≢ 0
      → Found q nid rs (find_loop q nid rs)
  unfolding find_loop
  find_loop-Found lo [] c some_base = absurd (some_base refl)
  find_loop-Found lo (r ∷ rs) (a, b, h, c) some_base =
      let base = align_kernel (clamp r.base q.start q.end) q.align in
      let r_end = clamp (region_end r) q.start q.end in
      let later : find_loop q nid rs ≢ 0 → Found q nid (r ∷ rs) (find_loop q nid rs) =
        λ n. Found-later r rs _ c (find_loop-Found (r.base + r.size) rs c n) in
      elim (Bool-cases (r.flags == q.flags)) [
        | inr other ↦ rw other (later (rw other at some_base))
        | inl free ↦ elim (Bool-cases (not (nid == no_node) && not (nid == r.nid))) [
          | inl elsewhere ↦ rw (free, elsewhere) (later (rw (free, elsewhere) at some_base))
          | inr near ↦ elim (Bool-cases (ltb base r_end && leb q.size (sub64 r_end base))) [
            | inr small ↦ rw (free, near, small) (later (rw (free, near, small) at some_base))
            | inl large ↦
                rw (free, near, large)
                  (chosen r rs h (ground arith) (ground arith) (ground arith) (ground arith)
                    (rw (free, near, large) at some_base))
          ]
        ]
      ]

-- The range of `size` bytes at `p` was free, lies where it was asked for, and is now reserved.
pub record Given (size align start end nid : ℕ) (m : Memblock) (p : ℕ) (m' : Memblock)
    : Type 0 where
  pub some_address : p ≢ 0
  pub found :
      Found
        (record {
          size = size;
          align = align;
          start = max start page_size;
          end = max (max start page_size) end;
          flags = memblock_none;
        })
        nid
        m.live
        p
  pub good : Good m'
  pub reserved :
      (a : ℕ)
      → view m'.live a ≡ changed p (p + size) (mark_attr true memblock_reserved) a (view m.live a)

module _ (size align start end k : ℕ) (power : align ≡ 2 ^ k) (bits : k < 64) (low : start < 2 ^ 64)
    (fits : end < 2 ^ 64) where
  abbrev Answer : Memblock → ℕ → ℕ × Memblock → Type 0
  Answer m nid (p, m') = ((p ≡ 0) × (m' ≡ m)) ⊎ Given size align start end nid m p m'

  located :
      (nid : ℕ) (m : Memblock)
      → Good m
      → find_in_range_node size align start end nid memblock_none m ≢ 0
      → Found
          (record {
            size = size;
            align = align;
            start = max start page_size;
            end = max (max start page_size) end;
            flags = memblock_none;
          })
          nid
          m.live
          (find_in_range_node size align start end nid memblock_none m)
  unfolding find_in_range_node
  located nid m g some_address =
      find_loop-Found
        (record {
          size = size;
          align = align;
          start = max start page_size;
          end = max (max start page_size) end;
          flags = memblock_none;
        })
        nid k power bits (omega arith) (omega arith) 0 m.live g.chain some_address

  alloc_round-Answer :
      (nid : ℕ) (m : Memblock)
      → Good m
      → 1 < length m.rest
      → Returns (Answer m nid) (alloc_round size align start end nid m)
  unfolding alloc_round
  alloc_round-Answer nid m g room =
      let paddr = find_in_range_node size align start end nid memblock_none m in
      elim (Bool-cases (paddr == 0)) [
        | inl nothing ↦ rw nothing (returns (0, m) (inl (refl, refl)))
        | inr something ↦ rw something (
            let some_address : paddr ≢ 0 = ground arith in
            let found : Found
                (record {
                  size = size;
                  align = align;
                  start = max start page_size;
                  end = max (max start page_size) end;
                  flags = memblock_none;
                })
                nid m.live paddr =
              located nid m g some_address in
            Returns-bind (Answer m nid)
              (λ (err, m'). elim err [ success ↦ ok (paddr, m') | enospc ↦ ok (0, m') ])
              (memblock_setclr_flag-view paddr size true memblock_reserved m g
                (omega (arith, found.high)) room)
              (λ (err, m') (e, good, reserved). rw e (
                returns (paddr, m')
                  (inr (record {
                    some_address = some_address;
                    found = found;
                    good = good;
                    reserved = reserved;
                  })))))
      ]

  -- With two entries to spare the second round is only made where the first has changed nothing.
  alloc-Answer :
      (nid : ℕ) (exact_nid : Bool) (m : Memblock)
      → Good m
      → 1 < length m.rest
      → Returns
          (λ r. Answer m nid r ⊎ ((exact_nid ≡ false) × Answer m no_node r))
          (memblock_alloc size align start end nid exact_nid m)
  unfolding memblock_alloc
  alloc-Answer nid exact_nid m g room =
      Returns-bind _ _ (alloc_round-Answer nid m g room) λ (p, m') found. again p m' found
    where
      again :
          (p : ℕ) (m' : Memblock)
          → Answer m nid (p, m')
          → Returns
              (λ r. Answer m nid r ⊎ ((exact_nid ≡ false) × Answer m no_node r))
              (if not (p == 0)
                then ok (p, m')
                else if not (nid == no_node) && not exact_nid
                then alloc_round size align start end no_node m'
                else ok (0, m'))
      again p m' (inr given) =
          let some_address : (p == 0) ≡ false = ground (arith, given.some_address) in
          rw some_address (returns (p, m') (inl (inr given)))
      again p m' (inl (e, same)) = elim (Bool-cases (not (nid == no_node) && not exact_nid)) [
        | inr last ↦ rw (e, last) (returns (0, m') (inl (inl (refl, same))))
        | inl more ↦
            rw (e, more, same)
              (Returns_mono (alloc_round-Answer no_node m g room)
                (λ r answer. inr (ground arith, answer)))
      ]

-- In a good memory with two entries to spare, for an alignment that is a power of two and bounds
-- below 2^64, `memblock_alloc` returns. Either it returns 0 and the memory is as it was, or it
-- returns an address that is a multiple of the alignment and at least `start` and PAGE_SIZE; the
-- range from there lies below `end` (or that least address, where `end` is lower) and in one
-- region that was free, on the node `nid`, or on any node if `nid` is -1 or `exact_nid` does not
-- hold; the invariant still holds, and the addresses of the range, and no others, have become
-- reserved.
pub memblock_alloc-Given :
    (size align start end k : ℕ)
    → align ≡ 2 ^ k
    → k < 64
    → start < 2 ^ 64
    → end < 2 ^ 64
    → (nid : ℕ) (exact_nid : Bool) (m : Memblock) → Good m
    → 1 < length m.rest
    → Returns
        (λ (p, m').
          ((p ≡ 0) × (m' ≡ m))
          ⊎ Given size align start end nid m p m'
          ⊎ ((exact_nid ≡ false) × Given size align start end no_node m p m'))
        (memblock_alloc size align start end nid exact_nid m)
memblock_alloc-Given size align start end k power bits low fits nid exact_nid m g room =
    Returns_mono (alloc-Answer size align start end k power bits low fits nid exact_nid m g room)
      λ r answer. elim answer [
        | inl (inl failed) ↦ inl failed
        | inl (inr given) ↦ inr (inl given)
        | inr (e, inl failed) ↦ inl failed
        | inr (e, inr given) ↦ inr (inr (e, given))
      ]
