-- ===== src/IoBuffer/Tests.antt =====
-- Runs of uklib/io_buffer/io_buffer.c with the buffer of the kernel's log, cut down to four bytes.
use cyanea.Prelude.{ℕ, ◌≡◌, refl, List, [], ◌∷◌, ◌++◌, arith, length, ok, Returns}
use cyanea.IoBuffer.{
  line_buffered, Io, flushed_len, make_room, put, fill, wbuffer_no_flush, write_rest, write_flushed,
  iob_write, ulog_write, ulog_flush,
}
use cyanea.IoBuffer.Fill.{Ready, Wrote}
use cyanea.IoBuffer.Line.{Inner, iob_write-Wrote}

abbrev small : Io
small = record { input = 0; buffered = b'a' ∷ []; buf_size = 4; sent = b'>' ∷ [] }

small-Ready : Ready Inner small
small-Ready = record {
  output = refl;
  sized = omega arith;
  fits = omega arith;
  pending = (λ e. omega arith, tt);
}

-- A line that is longer than the buffer, and the beginning of another.
abbrev line : List ℕ
line = b'b' ∷ b'c' ∷ b'd' ∷ b'e' ∷ b'f' ∷ 10 ∷ b'g' ∷ []

iob_write-Wrote_example :
    Returns
      (Wrote Inner (length line) ((small.sent ++ small.buffered) ++ line))
      (iob_write ulog_write ulog_flush line_buffered line small)
iob_write-Wrote_example = iob_write-Wrote line small small-Ready

line_runs :
    iob_write ulog_write ulog_flush line_buffered line small
    ≡ ok (
      7,
      record {
        input = 0;
        buffered = b'g' ∷ [];
        buf_size = 4;
        sent = b'>' ∷ b'a' ∷ b'b' ∷ b'c' ∷ b'd' ∷ b'e' ∷ b'f' ∷ 10 ∷ [];
      },
    )
unfolding iob_write ulog_write ulog_flush flushed_len write_flushed wbuffer_no_flush fill make_room
    put write_rest
line_runs = refl
