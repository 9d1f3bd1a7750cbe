-- ===== src/Ctype.antt =====
-- uklib/ctype.c: the classes of the characters.
mod Ascii
mod Tests
use Prim.Native.Nat.{bit_and}
use cyanea.Prelude.{
  ℕ, ◌+◌, ◌-◌, ◌%◌, ◌==◌, if◌then◌else◌, List, ◌++◌, none, some, get_elem?, replicate,
}

-- The bits of the classes.
abbrev pub upper_bit : ℕ
upper_bit = 0x01

abbrev pub lower_bit : ℕ
lower_bit = 0x02

abbrev pub digit_bit : ℕ
digit_bit = 0x04

abbrev pub xdigit_bit : ℕ
xdigit_bit = 0x08

abbrev pub space_bit : ℕ
space_bit = 0x10

abbrev pub print_bit : ℕ
print_bit = 0x20

abbrev pub punct_bit : ℕ
punct_bit = 0x40

abbrev pub cntrl_bit : ℕ
cntrl_bit = 0x80

-- `CTRL`, `CTRLSP`, `SPACE`, `PUNCT`, `DIGIT | X`, `UPPER`, `UPPER | X`, `LOWER` and `LOWER | X`;
-- the bits of each differ, so `+` is `|`.
abbrev ctrl : ℕ
ctrl = cntrl_bit

abbrev ctrl_space : ℕ
ctrl_space = cntrl_bit + space_bit

abbrev blank : ℕ
blank = print_bit + space_bit

abbrev mark : ℕ
mark = print_bit + punct_bit

abbrev figure : ℕ
figure = print_bit + digit_bit + xdigit_bit

abbrev capital : ℕ
capital = print_bit + upper_bit

abbrev upper_hex : ℕ
upper_hex = capital + xdigit_bit

abbrev small : ℕ
small = print_bit + lower_bit

abbrev lower_hex : ℕ
lower_hex = small + xdigit_bit

abbrev pub ctypes : List ℕ
ctypes =
    replicate 8 ctrl
    ++ replicate 6 ctrl_space
    ++ replicate 18 ctrl
    ++ replicate 1 blank
    ++ replicate 15 mark
    ++ replicate 10 figure
    ++ replicate 7 mark
    ++ replicate 6 upper_hex
    ++ replicate 20 capital
    ++ replicate 6 mark
    ++ replicate 6 lower_hex
    ++ replicate 20 small
    ++ replicate 4 mark
    ++ replicate 33 ctrl
    ++ replicate 1 blank
    ++ replicate 31 mark
    ++ replicate 23 capital
    ++ replicate 1 mark
    ++ replicate 7 capital
    ++ replicate 24 small
    ++ replicate 1 mark
    ++ replicate 8 small

-- `isx`: an `int`, which is 0 where the character is in none of the classes. The index is below 256.
unfoldable pub isx : ℕ → ℕ → ℕ
isx c type = elim (get_elem? ctypes (c % 256)) [ none ↦ 0 | some bits ↦ bit_and bits type ]

unfoldable pub isupper : ℕ → ℕ
unfolding isx
isupper c = isx c upper_bit

unfoldable pub islower : ℕ → ℕ
unfolding isx
islower c = isx c lower_bit

unfoldable pub isdigit : ℕ → ℕ
unfolding isx
isdigit c = isx c digit_bit

unfoldable pub isspace : ℕ → ℕ
unfolding isx
isspace c = isx c space_bit

unfoldable pub isprint : ℕ → ℕ
unfolding isx
isprint c = isx c print_bit

unfoldable pub ispunct : ℕ → ℕ
unfolding isx
ispunct c = isx c punct_bit

unfoldable pub iscntrl : ℕ → ℕ
unfolding isx
iscntrl c = isx c cntrl_bit

unfoldable pub isalnum : ℕ → ℕ
unfolding isx
isalnum c = isx c (upper_bit + lower_bit + digit_bit)

unfoldable pub isalpha : ℕ → ℕ
unfolding isx
isalpha c = isx c (upper_bit + lower_bit)

unfoldable pub isgraph : ℕ → ℕ
unfolding isx
isgraph c = isx c (upper_bit + lower_bit + digit_bit + punct_bit)

unfoldable pub isxdigit : ℕ → ℕ
unfolding isx
isxdigit c = isx c xdigit_bit

-- `tolower` and `toupper` of include/cyanea/ctype.h, on a character from 0 on.
unfoldable pub tolower : ℕ → ℕ
unfolding isupper
tolower c = if isupper c == 0 then c else c + (b'a' - b'A')

unfoldable pub toupper : ℕ → ℕ
unfolding islower
toupper c = if islower c == 0 then c else c - (b'a' - b'A')
