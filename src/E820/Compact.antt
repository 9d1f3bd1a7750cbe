-- ===== src/E820/Compact.antt =====
-- `__e820__update_table` of arch/x86/ukernel/e820.c against a merge of neighbours on lists.
use cyanea.Prelude.{
  ℕ, suc, ◌+◌, ◌-◌, ◌<◌, ◌^◌, ◌≡◌, refl, sym, ap, subst, ◌∙◌, inl, inr, Bool, false, ◌&&◌, List, [],
  ◌∷◌, ◌++◌, append_assoc, Option, none, some, arith, Bool-cases, ltb, leb, ◌==◌, if◌then◌else◌,
  length, length-append, get_elem?, get_elem?_at, add64, set, set_at_end, take, All, ok, Returns,
  returns,
}
use cyanea.E820.{Entry, Table, continues, widened, update_loop, update_table}

-- The entry `e` takes in those behind it that continue it.
unfoldable pub compact : Entry → List Entry → List Entry
compact e [] = e ∷ []
compact e (x ∷ xs) =
    let kept = e ∷ compact x xs in
    let grown = compact (widened e x) xs in if continues e x then grown else kept

take_at_end {ℓ} :
    {A : Type ℓ} (xs ys : List A) (y : A) → take (length xs + 1) (xs ++ y ∷ ys) ≡ xs ++ y ∷ []
take_at_end [] ys y = refl
take_at_end (x ∷ xs) ys y =
    let e : suc (length xs) + 1 ≡ suc (length xs + 1) = omega arith in
    rw e (ap (λ l. x ∷ l) (take_at_end xs ys y))

-- The array of the loop: `out` is done, `e` grows, `junk` was moved or taken in, `todo` is to come.
abbrev array : List Entry → Entry → List Entry → List Entry → List Entry
array out e junk todo = out ++ e ∷ (junk ++ todo)

read_next :
    (out : List Entry) (e : Entry) (junk : List Entry) (x : Entry) (xs : List Entry)
    → get_elem? (array out e junk (x ∷ xs)) (length out + 1 + length junk) ≡ some x
read_next out e junk x xs =
    let at : length out + 1 + length junk ≡ length (out ++ e ∷ junk) =
      omega (arith, length-append out (e ∷ junk)) in
    let list : array out e junk (x ∷ xs) ≡ (out ++ e ∷ junk) ++ x ∷ xs =
      sym (append_assoc out (e ∷ junk) (x ∷ xs)) in
    rw (at, list) (get_elem?_at (out ++ e ∷ junk) (x ∷ xs))

write_next :
    (out : List Entry) (e j x : Entry) (rest : List Entry)
    → set (out ++ e ∷ j ∷ rest) (length out + 1) x ≡ (out ++ e ∷ []) ++ x ∷ rest
write_next out e j x rest =
    let at : length out + 1 ≡ length (out ++ e ∷ []) = omega (arith, length-append out (e ∷ [])) in
    let list : out ++ e ∷ j ∷ rest ≡ (out ++ e ∷ []) ++ j ∷ rest =
      sym (append_assoc out (e ∷ []) (j ∷ rest)) in
    rw (at, list) (set_at_end (out ++ e ∷ []) rest j x)

-- What a round does where the next entry does not continue `e`.
step_apart :
    (out junk : List Entry) (e x : Entry) (xs : List Entry)
    → (junk' : List Entry) × (set (array out e junk (x ∷ xs)) (length out + 1) x
        ≡ array (out ++ e ∷ []) x junk' xs)
      × (length junk' ≡ length junk)
step_apart out [] e x xs = ([], write_next out e x x xs, refl)
step_apart out (j ∷ js) e x xs = (
  js ++ x ∷ [],
  write_next out e j x (js ++ x ∷ xs)
      ∙ ap (λ l. (out ++ e ∷ []) ++ x ∷ l) (sym (append_assoc js (x ∷ []) xs)),
  length-append js (x ∷ []) ∙ omega arith,
)

update_loop-compact :
    (todo out junk : List Entry) (e : Entry)
    → update_loop (length todo) (length out + 1 + length junk) (length out) (array out e junk todo)
      ≡ ok (out ++ compact e todo)
unfolding update_loop compact
update_loop-compact [] out junk e = ap ok (take_at_end out (junk ++ []) e)
update_loop-compact (x ∷ xs) out junk e =
    let (junk', moved, n) = step_apart out junk e x xs in
    let taken : length out + 1 + length junk + 1 ≡ length out + 1 + length (junk ++ x ∷ []) =
      omega (arith, length-append junk (x ∷ [])) in
    let next : length out + 1 + length junk + 1 ≡ length (out ++ e ∷ []) + 1 + length junk' =
      omega (arith, n, length-append out (e ∷ [])) in
    let idx : length out + 1 ≡ length (out ++ e ∷ []) = omega (arith, length-append out (e ∷ [])) in
    rw (update_loop, get_elem?_at out (e ∷ (junk ++ x ∷ xs)), read_next out e junk x xs)
      (elim (Bool-cases (continues e x)) [
        | inl more ↦
            rw (more, set_at_end out (junk ++ x ∷ xs) e (widened e x), grown, taken)
              (update_loop-compact xs out (junk ++ x ∷ []) (widened e x))
        | inr apart ↦
            rw (apart, moved, next, idx)
              (update_loop-compact xs (out ++ e ∷ []) junk' x
                ∙ ap ok (append_assoc out (e ∷ []) (compact x xs)))
      ])
  where
    grown : out ++ widened e x ∷ (junk ++ x ∷ xs) ≡ array out (widened e x) (junk ++ x ∷ []) xs
    grown = ap (λ l. out ++ widened e x ∷ l) (sym (append_assoc junk (x ∷ []) xs))

-- `e820__update_table` returns the table in which runs of neighbours that continue one another
-- are merged.
pub update_table-compact : (e : Entry) (es : List Entry) → update_table (e ∷ es) ≡ ok (compact e es)
unfolding update_table
update_table-compact e es =
    let some_entry : (suc (length es) == 0) ≡ false = ground arith in
    let rounds : suc (length es) - 1 ≡ length es = omega arith in
    rw (some_entry, rounds) (update_loop-compact es [] [] e)

-- The type of an address: that of the first entry that holds it.
abbrev pub holds : Entry → ℕ → Bool
holds e a = leb e.start a && ltb a (e.start + e.size)

abbrev pub kind_at : List Entry → ℕ → Option ℕ
kind_at [] a = none
kind_at (e ∷ es) a = if holds e a then some e.kind else kind_at es a

-- No entry wraps round.
abbrev pub Plain : Entry → Type 0
Plain e = e.start + e.size < 2 ^ 64

kind_at-compact :
    (e : Entry) (es : List Entry) (a : ℕ)
    → Plain e
    → All Plain es
    → kind_at (compact e es) a ≡ kind_at (e ∷ es) a
unfolding compact
kind_at-compact e [] a p h = refl
kind_at-compact e (x ∷ xs) a p (q, h) = elim (Bool-cases (continues e x)) [
  | inl more ↦ rw more (kind_at-compact (widened e x) xs a (ground arith) h ∙ ground arith)
  | inr apart ↦
      rw apart (ap (λ o. if holds e a then some e.kind else o) (kind_at-compact x xs a q h))
]

-- No two neighbours have one type, where the second begins at the end of the first.
abbrev pub Parted : List Entry → Type 0
Parted [] = Unit
Parted (e ∷ []) = Unit
Parted (e ∷ x ∷ es) = (¬ ((e.kind ≡ x.kind) × (e.start + e.size ≡ x.start))) × Parted (x ∷ es)

head-compact :
    (e : Entry) (es : List Entry)
    → (h : Entry) × (t : List Entry) × (compact e es ≡ h ∷ t)
      × (h.start ≡ e.start)
      × (h.kind ≡ e.kind)
unfolding compact
head-compact e [] = (e, [], refl, refl, refl)
head-compact e (x ∷ xs) = elim (Bool-cases (continues e x)) [
  | inl more ↦ rw more (head-compact (widened e x) xs)
  | inr apart ↦ rw apart (e, compact x xs, refl, refl, refl)
]

-- What does not continue is of another type, or lies elsewhere.
apart_from :
    (e x : Entry)
    → x.start < 2 ^ 64
    → continues e x ≡ false
    → ¬ ((e.kind ≡ x.kind) × (e.start + e.size ≡ x.start))
apart_from e x h c (k, s) =
    let sum : add64 e.start e.size ≡ x.start = omega (arith, s) in ground (arith, sum)

compact-Parted : (e : Entry) (es : List Entry) → Plain e → All Plain es → Parted (compact e es)
unfolding compact
compact-Parted e [] p h = tt
compact-Parted e (x ∷ xs) p (q, hs) = elim (Bool-cases (continues e x)) [
  | inl more ↦ rw more (compact-Parted (widened e x) xs (ground arith) hs)
  | inr apart ↦
      let (h, t, list, s, k) = head-compact x xs in
      let still : continues e h ≡ false = ground arith in
      rw (apart, list)
        (apart_from e h (omega arith) still, subst Parted list (compact-Parted x xs q hs))
]

-- For entries that do not wrap round, `e820__update_table` returns; every address has the type that
-- the table gave it, and no two neighbours of one type are left of which the second begins where the
-- first ends.
pub update_table-kind_at :
    (table : Table)
    → All Plain table
    → Returns
        (λ table'. ((a : ℕ) → kind_at table' a ≡ kind_at table a) × Parted table')
        (update_table table)
unfolding update_table
update_table-kind_at [] h = returns [] (λ a. refl, tt)
update_table-kind_at (e ∷ es) (p, h) = record {
  value = compact e es;
  runs = update_table-compact e es;
  holds = (λ a. kind_at-compact e es a p h, compact-Parted e es p h);
}
