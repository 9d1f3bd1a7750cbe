-- ===== src/Printf/Tests.antt =====
-- Runs of uklib/io_buffer/vsnprintf.c.
use cyanea.Prelude.{ℕ, ◌^◌, ◌-◌, ◌≡◌, List, [], ◌∷◌, none, some, arith, replicate, ok}
use cyanea.Strtox.{strtoull}
use cyanea.Printf.Number.{fl_hash, format_int}
use cyanea.Printf.Directive.{iob_vsnprintf}
use cyanea.Printf.Text.{
  Piece, plain, chars, decimal, hex, format_of, args_of, written, iob_vsnprintf-written,
}
use cyanea.Printf.RoundTrip.{strtoull-format_int}

abbrev largest : ℕ
largest = 2 ^ 64 - 1

abbrev scratch_buf : List ℕ
scratch_buf = replicate 32 0

strtoull-format_int_example :
    ((bytes : List ℕ) × (format_int largest 0 10 0 none ≡ ok bytes)
      × (strtoull scratch_buf bytes 10 ≡ ok (some largest)))
    × ((bytes : List ℕ) × (format_int largest fl_hash 16 0 none ≡ ok bytes)
        × (strtoull scratch_buf bytes 0 ≡ ok (some largest)))
strtoull-format_int_example =
    strtoull-format_int scratch_buf largest 10 (omega arith) (omega arith) (omega arith)

-- 5%: , a string, and the number -1 twice.
abbrev line : List Piece
line =
    plain (b'5' ∷ b'%' ∷ b':' ∷ b' ' ∷ [])
    ∷ chars (b'a' ∷ b'b' ∷ [])
    ∷ decimal (2 ^ 32 - 1)
    ∷ hex (2 ^ 64 - 1)
    ∷ []

iob_vsnprintf-written_example : iob_vsnprintf (format_of line) (args_of line) ≡ written [] line
iob_vsnprintf-written_example = iob_vsnprintf-written line
