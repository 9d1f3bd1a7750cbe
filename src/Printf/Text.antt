-- ===== src/Printf/Text.antt =====
-- What `iob_vsnprintf` of uklib/io_buffer/vsnprintf.c writes for a format that is made of pieces.
use cyanea.Prelude.{
  ℕ, ◌≡◌, refl, sym, ap, ◌∙◌, inl, inr, Bool, Bool-cases, true, false, List, [], ◌∷◌, ◌++◌,
  take_all, append_assoc, append-nil, Option, none, some, ltb, ◌==◌, length, take, if◌then◌else◌,
  bind_assoc, Run, ok, halt, fault, timeout, ◌>>=◌, arith,
}
use cyanea.Ctype.{isx, isdigit}
use cyanea.Printf.Number.{
  fl_signed, has, put_padding, format_int, extend_int, convert_arg, ap_format_int, format_str,
}
use cyanea.Printf.Directive.{
  Arg, word, text, next_word, next_text, number, string, convert, modifiers, width_step, flags_step,
  Format, st_normal, step, normal_step, format_loop, iob_vsnprintf,
}

-- Text, `%s`, `%d`, and `%lx`.
pub data Piece : Type 0 where
  plain : List ℕ → Piece
  chars : List ℕ → Piece
  decimal : ℕ → Piece
  hex : ℕ → Piece

-- Every `%` is doubled.
unfoldable pub escape : List ℕ → List ℕ
escape [] = []
escape (ch ∷ cs) = let rest = escape cs in if ch == b'%' then b'%' ∷ b'%' ∷ rest else ch ∷ rest

unfoldable pub format_of : List Piece → List ℕ
format_of [] = []
format_of (plain cs ∷ pieces) = escape cs ++ format_of pieces
format_of (chars cs ∷ pieces) = b'%' ∷ b's' ∷ format_of pieces
format_of (decimal n ∷ pieces) = b'%' ∷ b'd' ∷ format_of pieces
format_of (hex n ∷ pieces) = b'%' ∷ b'l' ∷ b'x' ∷ format_of pieces

unfoldable pub args_of : List Piece → List Arg
args_of [] = []
args_of (plain cs ∷ pieces) = args_of pieces
args_of (chars cs ∷ pieces) = text (some cs) ∷ args_of pieces
args_of (decimal n ∷ pieces) = word n ∷ args_of pieces
args_of (hex n ∷ pieces) = word n ∷ args_of pieces

-- What is written for a piece: a number by `format_int`, an `int` in decimal with its sign.
unfoldable pub piece_text : Piece → Run (List ℕ)
piece_text (plain cs) = ok cs
piece_text (chars cs) = ok cs
piece_text (decimal n) = format_int (extend_int n) fl_signed 10 0 none
piece_text (hex n) = format_int n 0 16 0 none

-- The pieces one behind the other.
unfoldable pub written : List ℕ → List Piece → Run (Bool × List ℕ)
written out [] = ok (true, out)
written out (piece ∷ pieces) = piece_text piece >>= λ bytes. written (out ++ bytes) pieces

-- Between two directives.
abbrev between : ℕ → ℕ → Option ℕ → ℕ → List Arg → List ℕ → Format
between flags width precision rank args out = record {
  state = st_normal;
  flags = flags;
  width = width;
  precision = precision;
  rank = rank;
  args = args;
  out = out;
  skip = false;
}

format_loop-escape :
    (cs rest : List ℕ) (flags width : ℕ) (precision : Option ℕ) (rank : ℕ) (args : List Arg)
    (out : List ℕ)
    → format_loop (escape cs ++ rest) (between flags width precision rank args out)
      ≡ format_loop rest (between flags width precision rank args (out ++ cs))
unfolding format_loop escape step normal_step
format_loop-escape [] rest flags width precision rank args out =
    ap (λ l. format_loop rest (between flags width precision rank args l)) (sym (append-nil out))
format_loop-escape (ch ∷ cs) rest flags width precision rank args out =
    let next =
      format_loop-escape cs rest flags width precision rank args (out ++ ch ∷ [])
      ∙ ap (λ l. format_loop rest (between flags width precision rank args l))
          (append_assoc out (ch ∷ []) cs) in
    elim (Bool-cases (ch == b'%')) [
      | inr e ↦ rw (e, e) next
      | inl e ↦
          let percent : ch ≡ b'%' = ground arith in
          let go_on = λ (l : List ℕ).
            format_loop (escape cs ++ rest) (between flags width precision rank args l) in
          rw e (ap (λ c. go_on (out ++ c ∷ [])) (sym percent) ∙ next)
    ]

format_str-whole : (cs : List ℕ) → format_str cs 0 0 none ≡ cs
unfolding format_str put_padding has
format_str-whole cs =
    let unpadded : ltb (length cs) 0 ≡ false = ground arith in
    rw unpadded (append-nil (take (length cs) cs) ∙ take_all cs)

-- A directive, then whatever follows.
string-step :
    (cs rest : List ℕ) (flags width : ℕ) (precision : Option ℕ) (rank : ℕ) (args : List Arg)
    (out : List ℕ)
    → format_loop
        (b'%' ∷ b's' ∷ rest)
        (between flags width precision rank (text (some cs) ∷ args) out)
      ≡ format_loop rest (between 0 0 none 2 args (out ++ cs))
unfolding format_loop step normal_step flags_step width_step modifiers convert string next_text
    isdigit isx
string-step cs rest flags width precision rank args out =
    ap (λ l. format_loop rest (between 0 0 none 2 args (out ++ l))) (format_str-whole cs)

decimal-step :
    (n : ℕ) (rest : List ℕ) (flags width : ℕ) (precision : Option ℕ) (rank : ℕ) (args : List Arg)
    (out : List ℕ)
    → format_loop (b'%' ∷ b'd' ∷ rest) (between flags width precision rank (word n ∷ args) out)
      ≡ format_int (extend_int n) fl_signed 10 0 none >>= λ bytes.
          format_loop rest (between fl_signed 0 none 2 args (out ++ bytes))
unfolding format_loop step normal_step flags_step width_step modifiers convert number next_word
    ap_format_int convert_arg has isdigit isx
decimal-step n rest flags width precision rank args out =
    bind_assoc (format_int (extend_int n) fl_signed 10 0 none) _ _

hex-step :
    (n : ℕ) (rest : List ℕ) (flags width : ℕ) (precision : Option ℕ) (rank : ℕ) (args : List Arg)
    (out : List ℕ)
    → format_loop
        (b'%' ∷ b'l' ∷ b'x' ∷ rest)
        (between flags width precision rank (word n ∷ args) out)
      ≡ format_int n 0 16 0 none >>= λ bytes.
          format_loop rest (between 0 0 none 3 args (out ++ bytes))
unfolding format_loop step normal_step flags_step width_step modifiers convert number next_word
    ap_format_int convert_arg has isdigit isx
hex-step n rest flags width precision rank args out = bind_assoc (format_int n 0 16 0 none) _ _

bind_cong {ℓ κ} :
    {A : Type ℓ} {B : Type κ} (r : Run A) (f g : A → Run B)
    → ((a : A) → f a ≡ g a)
    → (r >>= f) ≡ (r >>= g)
bind_cong (ok a) f g h = h a
bind_cong halt f g h = refl
bind_cong fault f g h = refl
bind_cong timeout f g h = refl

format_loop-nil : (f : Format) → format_loop [] f ≡ ok (true, f.out)
unfolding format_loop
format_loop-nil f = refl

format_loop-written :
    (pieces : List Piece) (flags width : ℕ) (precision : Option ℕ) (rank : ℕ) (out : List ℕ)
    → format_loop (format_of pieces) (between flags width precision rank (args_of pieces) out)
      ≡ written out pieces
unfolding format_of args_of written piece_text
format_loop-written [] flags width precision rank out =
    format_loop-nil (between flags width precision rank [] out)
format_loop-written (plain cs ∷ pieces) flags width precision rank out =
    format_loop-escape cs (format_of pieces) flags width precision rank (args_of pieces) out
    ∙ format_loop-written pieces flags width precision rank (out ++ cs)
format_loop-written (chars cs ∷ pieces) flags width precision rank out =
    string-step cs (format_of pieces) flags width precision rank (args_of pieces) out
    ∙ format_loop-written pieces 0 0 none 2 (out ++ cs)
format_loop-written (decimal n ∷ pieces) flags width precision rank out =
    decimal-step n (format_of pieces) flags width precision rank (args_of pieces) out
    ∙ bind_cong (format_int (extend_int n) fl_signed 10 0 none) _ _
        (λ bytes. format_loop-written pieces fl_signed 0 none 2 (out ++ bytes))
format_loop-written (hex n ∷ pieces) flags width precision rank out =
    hex-step n (format_of pieces) flags width precision rank (args_of pieces) out
    ∙ bind_cong (format_int n 0 16 0 none) _ _
        (λ bytes. format_loop-written pieces 0 0 none 3 (out ++ bytes))

-- A format of text, in which `%` is doubled, and of the directives `%s`, `%d` and `%lx`, with the
-- arguments that they call for, writes the pieces one behind the other, each number as
-- `format_int` writes it.
pub iob_vsnprintf-written :
    (pieces : List Piece) → iob_vsnprintf (format_of pieces) (args_of pieces) ≡ written [] pieces
unfolding iob_vsnprintf
iob_vsnprintf-written pieces = format_loop-written pieces 0 0 none 2 []
