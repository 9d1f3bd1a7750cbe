-- ===== src/Memblock/Update/View.antt =====
-- `memblock_setclr_flag` and `memblock_set_node` of ukernel/memblock.c against the map from
-- addresses to nodes and flags.
use Prim.Native.Nat.{bit_and, bit_or}
use cyanea.Prelude.{
  ℕ, zero, suc, ◌+◌, ◌-◌, ◌≤◌, ◌<◌, ◌^◌, ◌≡◌, refl, sym, ap, subst, ◌∙◌, Bool, true, false, List,
  [], ◌∷◌, ◌++◌, append_assoc, map, arith, ltb, ◌==◌, length, length-append, get_elem?_at,
  set_at_end, add64, Run, ok, Returns, returns, Returns-bind, ◌>>=◌,
}
use cyanea.Memblock.Regions.{Region, Memblock, count, merge_regions}
use cyanea.Memblock.Regions.Insert.{memory}
use cyanea.Memblock.Regions.Merge.{merge_regions-Alike}
use cyanea.Memblock.Shape.{view, Attr}
use cyanea.Memblock.Good.{Good}
use cyanea.Memblock.Isolate.{Status, success, Cut, isolate_range}
use cyanea.Memblock.Isolate.Rounds.{Apart, Marks}
use cyanea.Memblock.Isolate.Apart.{isolate_loop-Apart}
use cyanea.Memblock.Update.{
  update_loop, update_range, memblock_setclr_flag, memblock_set_node, setclr, to_node,
}
use cyanea.Memblock.Update.Marked.{
  changed, Keeps, Placed-map, Placed-append, Placed-Good, view-changed,
}

-- The loop changes the regions of the range and no other.
update_loop_lem :
    (f : Region → Region) (inside before after rest : List Region) (size : ℕ)
    → update_loop f (length inside) (length before) (memory (before ++ (inside ++ after)) rest size)
      ≡ ok (memory (before ++ (map f inside ++ after)) rest size)
unfolding update_loop
update_loop_lem f [] before after rest size = refl
update_loop_lem f (r ∷ inside) before after rest size =
    let e : length before + 1 ≡ length (before ++ f r ∷ []) =
      omega (arith, length-append before (f r ∷ [])) in
    let l = append_assoc before (f r ∷ []) (inside ++ after) in
    let l' = append_assoc before (f r ∷ []) (map f inside ++ after) in
    rw
      (
        update_loop,
        get_elem?_at before (r ∷ inside ++ after),
        set_at_end before (inside ++ after) r (f r),
        e,
        ← l,
      )
      (update_loop_lem f inside (before ++ f r ∷ []) after rest size
        ∙ ap (λ (l : List Region). ok (memory l rest size)) l')

-- The part of `update_range` behind `isolate_range`.
finish : (Region → Region) → Cut → Run (Status × Memblock)
finish f s =
    update_loop f (s.end_range - s.start_range) s.start_range s.memory
    >>= merge_regions s.start_range s.end_range
    >>= λ m'. ok (success, m')

-- What `memblock_setclr_flag` does to the flags of an address.
abbrev pub mark_attr : Bool → ℕ → Attr → Attr
mark_attr true flags v = record { nid = v.nid; flags = bit_or v.flags flags }
mark_attr false flags v = record { nid = v.nid; flags = bit_and v.flags (2 ^ 32 - 1 - flags) }

-- What a change of the range promises.
abbrev pub Changes : ℕ → ℕ → (Attr → Attr) → Memblock → Status × Memblock → Type 0
Changes base end g m (err, m') =
    (err ≡ success) × Good m' × ((a : ℕ) → view m'.live a ≡ changed base end g a (view m.live a))

module _ (f : Region → Region) (g : Attr → Attr) (k : Keeps f g) where
  -- The loop on an isolated range.
  looped :
      (inside before after rest : List Region) (size start stop : ℕ)
      → Marks before inside start stop
      → update_loop f (stop - start) start (memory (before ++ (inside ++ after)) rest size)
        ≡ ok (memory (before ++ (map f inside ++ after)) rest size)
  unfolding update_loop
  looped [] before after rest size start stop (e, e') = rw (e, e')
  looped (r ∷ rs) before after rest size start stop (e, e') =
      let n : stop - start ≡ length (r ∷ rs) = omega arith in
      rw (n, e) (update_loop_lem f (r ∷ rs) before after rest size)

  finish-Changes :
      (base end : ℕ) (m : Memblock) (max : ℕ) (t : Cut)
      → Apart base end m.live max t
      → Returns (Changes base end g m) (finish f t)
  unfolding finish
  finish-Changes base end m max t c =
      let live' = c.before ++ (map f c.inside ++ c.after) in
      let m' = memory live' t.memory.rest t.memory.size in
      let whole : t.memory
          ≡ memory (c.before ++ (c.inside ++ c.after)) t.memory.rest t.memory.size =
        λ i. memory (c.cut i) t.memory.rest t.memory.size in
      let run : update_loop f (t.end_range - t.start_range) t.start_range t.memory ≡ ok m' =
        ap (update_loop f (t.end_range - t.start_range) t.start_range) whole
        ∙ looped c.inside c.before c.after t.memory.rest t.memory.size t.start_range t.end_range
            c.marks in
      let placed = Placed-append c.before (Placed-map f g k c.inside c.after) in
      let good : Good m' =
        Placed-Good placed
          (subst (λ l. Good (memory l t.memory.rest t.memory.size)) c.cut c.good) in
      let long = length-append c.before (c.inside ++ c.after) in
      let mid = length-append c.inside c.after in
      let high : t.end_range ≤ length c.before + length c.inside =
        marks_high c.inside c.before t.start_range t.end_range c.marks in
      rw run (
        Returns-bind (Changes base end g m) (λ m''. ok (success, m''))
          (merge_regions-Alike t.start_range t.end_range m' good (omega (arith, placed.same_length))
            (omega (arith, placed.same_length, c.spare)))
          (λ m'' al.
            returns (success, m'')
              (
                refl,
                al.good,
                λ a.
                    al.same.map a
                    ∙ view-changed f g k base end a c.before c.inside c.after c.all_before
                        c.all_inside c.all_after
                    ∙ ap (λ l. changed base end g a (view l a)) (sym c.cut)
                    ∙ ap (changed base end g a) (c.same.map a),
              )))
    where
      marks_high :
          (inside before : List Region) (start stop : ℕ)
          → Marks before inside start stop
          → stop ≤ length before + length inside
      marks_high [] before start stop h = omega arith
      marks_high (r ∷ rs) before start stop h = omega arith

  -- A range of no bytes changes nothing.
  nothing-Changes :
      (base : ℕ) (m : Memblock)
      → Good m
      → 0 < length m.rest
      → Returns
          (Changes base (base + 0) g m)
          (finish f (record { i = 0; start_range = 0; end_range = 0; memory = m }))
  unfolding finish update_loop
  nothing-Changes base m good room =
      Returns-bind (Changes base (base + 0) g m) (λ m'. ok (success, m'))
        (merge_regions-Alike 0 0 m good (omega arith) (omega arith))
        (λ m' al. returns (success, m') (refl, al.good, λ a. al.same.map a ∙ ground arith))

  update_range-Changes :
      (base size : ℕ) (m : Memblock)
      → Good m
      → base + size < 2 ^ 64
      → 1 < length m.rest
      → Returns (Changes base (base + size) g m) (update_range f base size m)
  unfolding update_range isolate_range finish
  update_range-Changes base zero m good fits room = nothing-Changes base m good (omega arith)
  update_range-Changes base (suc size) m good fits room =
      let some_size : (suc size == 0) ≡ false = ground arith in
      let enough : ltb (length m.live + length m.rest) (count m + 2) ≡ false = ground arith in
      let end : add64 base (suc size) ≡ base + suc size = omega arith in
      let cut = isolate_loop-Apart base (base + suc size) m good (omega arith) room in
      rw (some_size, enough, end, cut.runs)
        (finish-Changes base (base + suc size) m (count m + length m.rest) cut.value cut.holds)

setclr-Keeps : (on : Bool) (flags : ℕ) → Keeps (setclr on flags) (mark_attr on flags)
setclr-Keeps true flags = record { base = λ r. refl; size = λ r. refl; attrs = λ r. refl }
setclr-Keeps false flags = record { base = λ r. refl; size = λ r. refl; attrs = λ r. refl }

-- In a good memory with two entries to spare, for a range that ends below 2^64, setting or
-- clearing flags returns success and keeps the invariant. Every address of the range that lies in
-- a region has the flags set or cleared and keeps its node; every other address keeps both.
pub memblock_setclr_flag-view :
    (base size : ℕ) (on : Bool) (flags : ℕ) (m : Memblock)
    → Good m
    → base + size < 2 ^ 64
    → 1 < length m.rest
    → Returns
        (Changes base (base + size) (mark_attr on flags) m)
        (memblock_setclr_flag base size on flags m)
unfolding memblock_setclr_flag
memblock_setclr_flag-view base size on flags m =
    update_range-Changes (setclr on flags) (mark_attr on flags) (setclr-Keeps on flags) base size m

-- In a good memory with two entries to spare, for a range that ends below 2^64,
-- `memblock_set_node` returns success and keeps the invariant. Every address of the range that
-- lies in a region is on the new node and keeps its flags; every other address keeps both.
pub memblock_set_node-view :
    (base size nid : ℕ) (m : Memblock)
    → Good m
    → base + size < 2 ^ 64
    → 1 < length m.rest
    → Returns
        (Changes base (base + size) (λ v. record { nid = nid; flags = v.flags }) m)
        (memblock_set_node base size nid m)
unfolding memblock_set_node
memblock_set_node-view base size nid m =
    update_range-Changes (to_node nid) (λ v. record { nid = nid; flags = v.flags })
      (record { base = λ r. refl; size = λ r. refl; attrs = λ r. refl }) base size m
