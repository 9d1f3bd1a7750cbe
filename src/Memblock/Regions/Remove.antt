-- ===== src/Memblock/Regions/Remove.antt =====
-- `remove_region` of ukernel/memblock.c.
use cyanea.Prelude.{
  ℕ, ◌≡◌, refl, List, [], ◌∷◌, ◌++◌, append_assoc, some, length, get_elem?, get_elem?_at,
  remove_at_end, get_last-append, sub64, Returns, returns, Returns_mono,
}
use cyanea.Memblock.Regions.{Region, remove_region, close_gap}
use cyanea.Memblock.Regions.Insert.{memory}

-- Where the last region of a list stands.
last_there :
    (r : Region) (xs : List Region) → (l : Region) × (get_elem? (r ∷ xs) (length xs) ≡ some l)
last_there r [] = (r, refl)
last_there r (s ∷ xs) = last_there s xs

-- A region that has another behind it is removed, and `memory.size` falls by the size of that
-- other region, not of the removed one.
pub remove_region-size :
    (before after rest : List Region) (removed next : Region) (size : ℕ)
    → Returns
        (λ m'. (m'.live ≡ before ++ next ∷ after) × (m'.size ≡ sub64 size next.size))
        (remove_region (length before) (memory (before ++ removed ∷ next ∷ after) rest size))
unfolding remove_region
remove_region-size before after rest removed next size =
    let (l, found) = last_there removed (next ∷ after) in
    rw
      (
        remove_region,
        close_gap,
        get_last-append before (next ∷ after) removed,
        found,
        remove_at_end before (next ∷ after) removed,
        append_assoc before (next ∷ after) (l ∷ rest),
        get_elem?_at before (next ∷ after ++ l ∷ rest),
      )
      (returns _ (remove_at_end before (next ∷ after) removed, refl))

-- A region is removed: the others stay, in order.
pub remove_region-live :
    (before after rest : List Region) (removed : Region) (size : ℕ)
    → Returns
        (λ m'. m'.live ≡ before ++ after)
        (remove_region (length before) (memory (before ++ removed ∷ after) rest size))
unfolding remove_region
remove_region-live before [] rest removed size =
    rw
      (
        remove_region,
        close_gap,
        get_last-append before [] removed,
        remove_at_end before [] removed,
        append_assoc before [] (removed ∷ rest),
        get_elem?_at before (removed ∷ rest),
      )
      (returns _ (remove_at_end before [] removed))
remove_region-live before (next ∷ after) rest removed size =
    Returns_mono (remove_region-size before after rest removed next size) (λ m' h. h.0)
