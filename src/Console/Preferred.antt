-- ===== src/Console/Preferred.antt =====
-- The table of the consoles that are asked for, of drivers/console.c, as a map.
use cyanea.Prelude.{
  ℕ, suc, ◌-◌, ◌<◌, ◌≡◌, ◌≢◌, ◌⊎◌, inl, inr, refl, sym, ap, ◌∙◌, Bool, true, false, ◌||◌, List, [],
  ◌∷◌, ◌++◌, All, Option, none, some, ◌==◌, if◌then◌else◌, length, replicate, pos, ℤ, Returns,
  returns, Returns-bind, Bool-cases, arith, and_true,
}
use cyanea.Strings.{strcmp}
use cyanea.Strings.Compare.{strcmp_iff}
use cyanea.Strings.Copy.{Bytes, strncpy_lem}
use cyanea.Console.{
  PreferredConsole, enospc, is_equal, is_free, is_same, copy_options, fill_entry, add_preferred,
}
use cyanea.Console.Names.{strcmp-padded, strcmp_unique}

-- The entry of the console with that name and index, the first one if there are more.
unfoldable pub lookup : List ℕ → ℕ → List PreferredConsole → Option PreferredConsole
lookup name index [] = none
lookup name index (pc ∷ pcs) =
    let rest = lookup name index pcs in
    if is_free pc.name then none else if is_same name index pc then some pc else rest

-- Behind the first free entry all entries are free.
unfoldable pub Packed : List PreferredConsole → Type 0
Packed [] = Unit
Packed (pc ∷ pcs) = Packed pcs × (is_free pc.name ≡ true → All (λ q. is_free q.name ≡ true) pcs)

-- The options that are given, padded with NULs, and else any.
abbrev pub HasOptions : Option (List ℕ) → List ℕ → Type 0
HasOptions none stored = Unit
HasOptions (some options) stored = stored ≡ options ++ replicate (64 - length options) 0

-- An entry with what the call is given.
pub record NewEntry (name : List ℕ) (index : ℕ) (options : Option (List ℕ)) (user : Bool)
    (pc : PreferredConsole) : Type 0 where
  pub name_is : pc.name ≡ name ++ replicate (8 - length name) 0
  pub index_is : pc.index ≡ index
  pub user_is : pc.user_specified ≡ user
  pub options_are : HasOptions options pc.options

pub data Outcome (name : List ℕ) (index : ℕ) (options : Option (List ℕ)) (user : Bool)
    (pcs : List PreferredConsole) (r : ℤ × List PreferredConsole) : Type 0 where
  entered :
      (pc : PreferredConsole)
      → r.0 ≡ pos 0
      → lookup name index pcs ≡ none
      → lookup name index r.1 ≡ some pc
      → NewEntry name index options user pc
      → Outcome name index options user pcs r
  raised :
      (pc : PreferredConsole)
      → r.0 ≡ pos 0
      → lookup name index pcs ≡ some pc
      → lookup name index r.1 ≡ some (record pc { user_specified = user || pc.user_specified })
      → Outcome name index options user pcs r
  full :
      r.0 ≡ enospc
      → r.1 ≡ pcs
      → lookup name index pcs ≡ none
      → All (λ q. is_free q.name ≡ false) pcs
      → Outcome name index options user pcs r

pub record Added (name : List ℕ) (index : ℕ) (options : Option (List ℕ)) (user : Bool)
    (pcs : List PreferredConsole) (r : ℤ × List PreferredConsole) : Type 0 where
  pub packed : Packed r.1
  pub same_length : length r.1 ≡ length pcs
  pub outcome : Outcome name index options user pcs r
  pub others :
      (s : List ℕ) (i : ℕ) → Bytes s → (s ≢ name) ⊎ (i ≢ index) → lookup s i r.1 ≡ lookup s i pcs

-- What the arguments have to be: strings that fit, and the name is not empty.
pub record Fits (name : List ℕ) (options : Option (List ℕ)) : Type 0 where
  pub bytes : Bytes name
  pub named : 0 < length name
  pub short : length name < 8
  pub option_bytes : elim options as (λ o. Type 0) [
    | none ↦ Unit
    | some o ↦ Bytes o × (length o < 64)
  ]

copy_options-Returns :
    (name : List ℕ) (options : Option (List ℕ)) (old : List ℕ)
    → Fits name options
    → Returns (HasOptions options) (copy_options options old)
unfolding copy_options
copy_options-Returns name none old f = returns old tt
copy_options-Returns name (some options) old f =
    let (bytes, short) = f.option_bytes in
    rw ((strncpy_lem options 64 bytes).0 short)
      (returns (options ++ replicate (64 - length options) 0) refl)

fill_entry-NewEntry :
    (name : List ℕ) (index : ℕ) (options : Option (List ℕ)) (user : Bool) (pc : PreferredConsole)
    → Fits name options
    → Returns (NewEntry name index options user) (fill_entry name index options user pc)
unfolding fill_entry
fill_entry-NewEntry name index options user pc f =
    let c = copy_options-Returns name options pc.options f in
    rw ((strncpy_lem name 8 f.bytes).0 f.short, c.runs)
      (returns
        (record {
          name = name ++ replicate (8 - length name) 0;
          index = index;
          user_specified = user;
          options = c.value;
        })
        (record { name_is = refl; index_is = refl; user_is = refl; options_are = c.holds }))

is_same_raised :
    (name : List ℕ) (index : ℕ) (user : Bool) (pc : PreferredConsole)
    → is_same name index (record pc { user_specified = user }) ≡ is_same name index pc
unfolding is_same
is_same_raised name index user pc = refl

true≢false : true ≡ false → ⊥
true≢false e = ground (arith, e)

-- An entry that holds a name is not free.
new-used :
    (name : List ℕ) (bytes : Bytes name)
    → 0 < length name
    → (user : Bool) (index : ℕ) (options : Option (List ℕ)) (pc : PreferredConsole)
    → NewEntry name index options user pc
    → is_free pc.name ≡ false
unfolding is_free
new-used [] bytes h user index options pc n = absurd (omega arith)
new-used (c ∷ name) (b, bytes) h user index options pc n = rw n.name_is (ground arith)

later-Outcome :
    (name : List ℕ) (index : ℕ) (options : Option (List ℕ)) (user : Bool) (pc : PreferredConsole)
    (pcs : List PreferredConsole) (r : ℤ × List PreferredConsole)
    → is_free pc.name ≡ false
    → is_same name index pc ≡ false
    → Outcome name index options user pcs r
    → Outcome name index options user (pc ∷ pcs) (r.0, pc ∷ r.1)
unfolding lookup
later-Outcome name index options user pc pcs r used other
      (entered new no_error missing found holds) =
    entered new no_error (rw (lookup, used, other) missing) (rw (lookup, used, other) found) holds
later-Outcome name index options user pc pcs r used other (raised old no_error before found) =
    raised old no_error (rw (lookup, used, other) before) (rw (lookup, used, other) found)
later-Outcome name index options user pc pcs r used other (full err same missing all) =
    full err (ap (λ l. pc ∷ l) same) (rw (lookup, used, other) missing) (used, all)

module _ (name : List ℕ) (index : ℕ) (options : Option (List ℕ)) (bytes : Bytes name) where
  same_new :
      (user : Bool) (pc : PreferredConsole)
      → NewEntry name index options user pc
      → is_same name index pc ≡ true
  unfolding is_same
  same_new user pc n =
      let padded = strcmp-padded name name (8 - length name) bytes in
      let eq : strcmp pc.name name ≡ pos 0 =
        ap (λ x. strcmp x name) n.name_is ∙ padded ∙ (strcmp_iff name name bytes bytes).1 refl in
      let at : (pc.index == index) ≡ true = let e = n.index_is in ground arith in rw (eq, at) refl

  -- An entry of the console is that of no other one.
  same_other :
      (pc : PreferredConsole) (s : List ℕ) (i : ℕ)
      → is_same name index pc ≡ true
      → Bytes s
      → (s ≢ name) ⊎ (i ≢ index)
      → is_same s i pc ≡ false
  unfolding is_same
  same_other pc s i own hs other = elim (Bool-cases (is_same s i pc)) [
    | inr e ↦ e
    | inl e ↦
        let (a, b) = and_true (is_equal (strcmp pc.name name)) (pc.index == index) own in
        let (c, d) = and_true (is_equal (strcmp pc.name s)) (pc.index == i) e in
        absurd (elim other [
          | inl n ↦ n (strcmp_unique pc.name s name hs bytes c a)
          | inr n ↦ n (ground arith)
        ])
  ]

  -- Among free entries nothing is found.
  free-none :
      (s : List ℕ) (i : ℕ) (pcs : List PreferredConsole)
      → All (λ q. is_free q.name ≡ true) pcs
      → lookup s i pcs ≡ none
  unfolding lookup
  free-none s i [] h = refl
  free-none s i (pc ∷ pcs) (h, hs) = rw (lookup, h) refl

  entered-Added :
      (user : Bool) (pc pc' : PreferredConsole) (pcs : List PreferredConsole)
      → 0 < length name
      → is_free pc.name ≡ true
      → Packed (pc ∷ pcs)
      → NewEntry name index options user pc'
      → Added name index options user (pc ∷ pcs) (pos 0, pc' ∷ pcs)
  unfolding lookup Packed
  entered-Added user pc pc' pcs named free (p, behind) n =
      let used = new-used name bytes named user index options pc' n in
      let own = same_new user pc' n in
      record {
        packed = (p, λ e. absurd (true≢false (sym e ∙ used)));
        same_length = refl;
        outcome = entered pc' refl (rw (lookup, free) refl) (rw (lookup, used, own) refl) n;
        others = λ s i hs other.
            let not_own = same_other pc' s i own hs other in
            rw (lookup, free, used, not_own) (free-none s i pcs (behind free));
      }

  raised-Added :
      (user : Bool) (pc : PreferredConsole) (pcs : List PreferredConsole)
      → is_free pc.name ≡ false
      → is_same name index pc ≡ true
      → Packed (pc ∷ pcs)
      → Added name index options user
          (pc ∷ pcs)
          (pos 0, record pc { user_specified = user || pc.user_specified } ∷ pcs)
  unfolding lookup Packed
  raised-Added user pc pcs used own packed = record {
    packed = packed;
    same_length = refl;
    outcome =
        raised pc refl (rw (lookup, used, own) refl)
          (rw (lookup, used, is_same_raised name index (user || pc.user_specified) pc, own) refl);
    others = λ s i hs other.
        let not_own = same_other pc s i own hs other in
        rw (lookup, used, is_same_raised s i (user || pc.user_specified) pc, not_own) refl;
  }

  later-Added :
      (user : Bool) (pc : PreferredConsole) (pcs : List PreferredConsole)
      (r : ℤ × List PreferredConsole)
      → is_free pc.name ≡ false
      → is_same name index pc ≡ false
      → Added name index options user pcs r
      → Added name index options user (pc ∷ pcs) (r.0, pc ∷ r.1)
  unfolding lookup Packed
  later-Added user pc pcs r used other a = record {
    packed = (a.packed, λ e. absurd (true≢false (sym e ∙ used)));
    same_length = ap suc a.same_length;
    outcome = later-Outcome name index options user pc pcs r used other a.outcome;
    others = λ s i hs ne.
        rw (lookup, used) (ap (λ o. if is_same s i pc then some pc else o) (a.others s i hs ne));
  }

-- For a name of 1 to 7 bytes and options of less than 64, in a table whose free entries come last,
-- the call returns, and the free entries still come last. With success the console is in the table: a
-- console that was not has a new entry with the name, the index, the flag for the command line and the
-- options that are given, if there are any; one that was keeps its entry, and is asked for on the
-- command line if it is now or was before. Or it is `-ENOSPC`, where no entry is free and the console
-- is not in the table, and nothing is changed. The entry of every other console stays as it was.
pub add_preferred-Added :
    (name : List ℕ) (index : ℕ) (options : Option (List ℕ)) (user : Bool)
    (pcs : List PreferredConsole)
    → Fits name options
    → Packed pcs
    → Returns (Added name index options user pcs) (add_preferred name index options user pcs)
unfolding add_preferred lookup Packed
add_preferred-Added name index options user [] f p =
    returns (enospc, [])
      (record {
        packed = tt;
        same_length = refl;
        outcome = full refl refl refl tt;
        others = λ s i hs other. refl;
      })
add_preferred-Added name index options user (pc ∷ pcs) f p = elim (Bool-cases (is_free pc.name)) [
  | inl free ↦
      let e = fill_entry-NewEntry name index options user pc f in
      rw (add_preferred, free, e.runs)
        (returns (pos 0, e.value ∷ pcs)
          (entered-Added name index options f.bytes user pc e.value pcs f.named free p e.holds))
  | inr used ↦ elim (Bool-cases (is_same name index pc)) [
    | inl own ↦
        rw (add_preferred, used, own)
          (returns (pos 0, record pc { user_specified = user || pc.user_specified } ∷ pcs)
            (raised-Added name index options f.bytes user pc pcs used own p))
    | inr other ↦
        rw (add_preferred, used, other)
          (Returns-bind (Added name index options user (pc ∷ pcs)) _
            (add_preferred-Added name index options user pcs f p.0)
            (λ r a.
              returns (r.0, pc ∷ r.1)
                (later-Added name index options f.bytes user pc pcs r used other a)))
  ]
]
