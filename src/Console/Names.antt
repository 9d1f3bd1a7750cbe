-- ===== src/Console/Names.antt =====
-- How drivers/console.c compares the names of consoles.
use cyanea.Prelude.{
  ℕ, zero, suc, ◌-◌, ◌≡◌, ◌≢◌, inl, inr, refl, sym, ap, ◌∙◌, true, false, not, ◌&&◌, List, [], ◌∷◌,
  ◌++◌, leb, ◌==◌, sub_ℕ, replicate, Bool-cases, arith, and_true,
}
use cyanea.Strings.{strcmp}
use cyanea.Strings.Copy.{Bytes}
use cyanea.Console.{is_equal}

-- The NULs behind a string do not matter to `strcmp`.
pub strcmp-padded : (s t : List ℕ) (n : ℕ) → Bytes t → strcmp (s ++ replicate n 0) t ≡ strcmp s t
unfolding strcmp
strcmp-padded [] [] zero h = refl
strcmp-padded [] [] (suc n) h = refl
strcmp-padded [] (y ∷ t) zero h = refl
strcmp-padded [] (y ∷ t) (suc n) (h, hs) =
    let e : (0 == y && not (0 == 0)) ≡ false = ground arith in rw e refl
strcmp-padded (x ∷ s) [] n h = refl
strcmp-padded (x ∷ s) (y ∷ t) n (h, hs) = rw (strcmp-padded s t n hs) refl

is_equal-sub_ℕ : (x y : ℕ) → is_equal (sub_ℕ x y) ≡ true → x ≡ y
is_equal-sub_ℕ x y h = elim (Bool-cases (leb y x)) [
  | inl e ↦
      let r : is_equal (sub_ℕ x y) ≡ (x - y == 0) = rw e refl in
      let d : (x - y == 0) ≡ true = sym r ∙ h in ground (arith, d, e)
  | inr e ↦
      let r : is_equal (sub_ℕ x y) ≡ false = rw e refl in
      let d : false ≡ true = sym r ∙ h in absurd (ground (arith, d))
]

strcmp-cons :
    (x y : ℕ) (xs ys : List ℕ)
    → y ≢ 0
    → is_equal (strcmp (x ∷ xs) (y ∷ ys)) ≡ true
    → (x ≡ y) × (is_equal (strcmp xs ys) ≡ true)
unfolding strcmp
strcmp-cons x y xs ys h e = elim (Bool-cases (x == y && not (x == 0))) [
  | inl more ↦
      let (eq, nonzero) = and_true (x == y) (not (x == 0)) more in
      let r : is_equal (strcmp (x ∷ xs) (y ∷ ys)) ≡ is_equal (strcmp xs ys) =
        rw (strcmp, more) refl in
      (ground (arith, eq), sym r ∙ e)
  | inr last ↦
      let r : is_equal (strcmp (x ∷ xs) (y ∷ ys)) ≡ is_equal (sub_ℕ x y) = rw (strcmp, last) refl in
      let same = is_equal-sub_ℕ x y (sym r ∙ e) in absurd (ground (arith, same, last, h))
]

-- Two strings that are equal to what an array holds are one.
pub strcmp_unique :
    (x s t : List ℕ)
    → Bytes s
    → Bytes t
    → is_equal (strcmp x s) ≡ true
    → is_equal (strcmp x t) ≡ true
    → s ≡ t
unfolding strcmp
strcmp_unique [] [] [] hs ht a b = refl
strcmp_unique [] (y ∷ s) t (h, hs) ht a b = absurd (ground arith)
strcmp_unique [] [] (z ∷ t) hs (k, ht) a b = absurd (ground arith)
strcmp_unique (x ∷ xs) [] [] hs ht a b = refl
strcmp_unique (x ∷ xs) [] (z ∷ t) hs (k, ht) a b = absurd (ground arith)
strcmp_unique (x ∷ xs) (y ∷ s) [] (h, hs) ht a b = absurd (ground arith)
strcmp_unique (x ∷ xs) (y ∷ s) (z ∷ t) (h, hs) (k, ht) a b =
    let (x_y, rest) = strcmp-cons x y xs s h a in
    let (x_z, rest') = strcmp-cons x z xs t k b in
    ap (λ c. c ∷ s) (sym x_y ∙ x_z) ∙ ap (λ l. z ∷ l) (strcmp_unique xs s t hs ht rest rest')
