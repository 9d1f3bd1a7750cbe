-- ===== src/Ctype/Ascii.antt =====
-- The classes of uklib/ctype.c on ASCII, against the ranges of the C locale.
use cyanea.Prelude.{
  ℕ, ◌<◌, ◌≡◌, refl, Bool, true, false, not, ◌&&◌, ◌||◌, List, [], ◌∷◌, leb, ◌==◌, arith,
  every_sound,
}
use cyanea.Ctype.{
  isx, isupper, islower, isdigit, isspace, isprint, ispunct, iscntrl, isalnum, isalpha, isgraph,
  isxdigit,
}

-- What the functions say of a character, in the order of the source.
abbrev pub classes : ℕ → List Bool
classes c =
    not (isupper c == 0)
    ∷ not (islower c == 0)
    ∷ not (isdigit c == 0)
    ∷ not (isspace c == 0)
    ∷ not (isprint c == 0)
    ∷ not (ispunct c == 0)
    ∷ not (iscntrl c == 0)
    ∷ not (isalnum c == 0)
    ∷ not (isalpha c == 0)
    ∷ not (isgraph c == 0)
    ∷ not (isxdigit c == 0)
    ∷ []

abbrev pub between : ℕ → ℕ → ℕ → Bool
between a b c = leb a c && leb c b

-- The ranges of the C locale, but for the backspace, which counts as white space here.
abbrev pub ascii : ℕ → List Bool
ascii c =
    let capital = between b'A' b'Z' c in
    let small = between b'a' b'z' c in
    let figure = between b'0' b'9' c in
    let printed = between b' ' b'~' c in
    let graph = between b'!' b'~' c in
    capital
    ∷ small
    ∷ figure
    ∷ (between 8 13 c || c == b' ')
    ∷ printed
    ∷ (graph && not (capital || small || figure))
    ∷ (leb c 31 || c == 127)
    ∷ (capital || small || figure)
    ∷ (capital || small)
    ∷ graph
    ∷ (figure || between b'A' b'F' c || between b'a' b'f' c)
    ∷ []

same_bit : Bool → Bool → Bool
same_bit true b = b
same_bit false b = not b

same : List Bool → List Bool → Bool
unfolding same_bit
same [] [] = true
same [] (y ∷ ys) = false
same (x ∷ xs) [] = false
same (x ∷ xs) (y ∷ ys) = same_bit x y && same xs ys

same_sound : (xs ys : List Bool) → same xs ys ≡ true → xs ≡ ys
unfolding same
same_sound [] [] h = refl
same_sound [] (y ∷ ys) h = ground arith
same_sound (x ∷ xs) [] h = ground arith
same_sound (x ∷ xs) (y ∷ ys) h = ground (arith, same_sound xs ys)

abbrev agree : ℕ → Bool
agree c = same (classes c) (ascii c)

-- On ASCII every class is the one of the C locale, but for `isspace`, which holds for the backspace
-- too.
pub classes-ascii : (c : ℕ) → c < 128 → classes c ≡ ascii c
unfolding same isx isupper islower isdigit isspace isprint ispunct iscntrl isalnum isalpha isgraph
    isxdigit
classes-ascii c h = same_sound (classes c) (ascii c) (every_sound agree 128 c refl h)
