-- ===== src/IoBuffer.antt =====
-- The output half of uklib/io_buffer/io_buffer.c, and the operations that ukernel/ulog.c gives it.
pub mod Fill
pub mod Line
pub mod Input
pub mod Stream
mod Tests
use cyanea.Prelude.{
  ℕ, zero, suc, ◌+◌, ◌-◌, min, Bool, true, false, not, ◌&&◌, List, [], ◌∷◌, ◌++◌, Option, none,
  some, leb, ◌==◌, if◌then◌else◌, length, get_elem?, take, drop, Run, ok, timeout, ◌>>=◌,
}

-- `_IONBF`, `_IOLBF` and `_IOFBF`
pub data BufMode : Type 0 where
  unbuffered line_buffered fully_buffered : BufMode

-- `struct io_buffer`: `input` is `in`, `buffered` are the first `out` bytes of `buffer`. `sent` is
-- what the operations have passed on.
pub record Io : Type 0 where
  pub input : ℕ
  pub buffered : List ℕ
  pub buf_size : ℕ
  pub sent : List ℕ

abbrev pub newline : ℕ
newline = 10

-- `while ((f_len != 0) && (buffer[f_len - 1] != '\n')) f_len--;`
unfoldable pub line_len : List ℕ → ℕ → ℕ
line_len bytes zero = 0
line_len bytes (suc f_len) =
    let shorter = line_len bytes f_len in
    elim (get_elem? bytes f_len) [
      | none ↦ shorter
      | some ch ↦ if ch == newline then suc f_len else shorter
    ]

-- How much of the data is to be flushed.
unfoldable pub flushed_len : BufMode → List ℕ → ℕ
unfolding line_len
flushed_len fully_buffered bytes = 0
flushed_len line_buffered bytes = line_len bytes (length bytes)
flushed_len unbuffered bytes = length bytes

-- The parameters are `ops->write`, which returns a count, and `ops->flush`, which returns whether
-- it failed.
module _ (write : List ℕ → Io → ℕ × Io) (flush : Io → Bool × Io) where
  -- `if (io->out == io->buf_size) { if (io->ops->flush(io)) break; }`
  unfoldable pub make_room : Io → Bool × Io
  make_room io = if length io.buffered == io.buf_size then flush io else (false, io)

  -- One part of the data goes past the buffer or into it; `none` leaves the loop.
  unfoldable pub put : List ℕ → Io → Option ℕ × Io
  put bytes io =
      let (n, direct) = write bytes io in
      let count = min (length bytes) (io.buf_size - length io.buffered) in
      if length io.buffered == 0 && leb io.buf_size (length bytes)
      then (if n == 0 then (none, direct) else (some n, direct))
      else (some count, record io { buffered = io.buffered ++ take count bytes })

  -- The loop of `wbuffer_no_flush`, `fuel` rounds at most.
  unfoldable pub fill : ℕ → List ℕ → ℕ → Io → Run (ℕ × Io)
  fill zero bytes written io = timeout
  fill (suc fuel) [] written io = ok (written, io)
  fill (suc fuel) (ch ∷ bytes) written io =
      let (err, io') = make_room io in
      let (n?, io'') = put (ch ∷ bytes) io' in
      elim err [
        | true ↦ ok (written, io')
        | false ↦ elim n? [
          | none ↦ ok (written, io'')
          | some n ↦ fill fuel (drop n (ch ∷ bytes)) (written + n) io''
        ]
      ]

  -- Each round takes a byte at least, where the operations do what they promise.
  unfoldable pub wbuffer_no_flush : List ℕ → Io → Run (ℕ × Io)
  wbuffer_no_flush bytes io =
      let (err, io') = if io.input == 0 then (false, io) else flush io in
      if err then ok (0, io') else fill (length bytes + 1) bytes 0 io'

  -- What is left behind the part that is flushed.
  unfoldable pub write_rest : List ℕ → ℕ → Io → Run (ℕ × Io)
  write_rest bytes written io =
      if length bytes == 0
      then ok (written, io)
      else wbuffer_no_flush bytes io >>= λ (n, io'). ok (written + n, io')

  -- The part that is flushed, where it is not empty, and then the rest.
  unfoldable pub write_flushed : List ℕ → List ℕ → Io → Run (ℕ × Io)
  write_flushed bytes rest io = wbuffer_no_flush bytes io >>= λ (written, io').
      let (err, io'') = flush io' in
      if not (written == length bytes)
      then ok (written, io')
      else if err
      then ok (written, io'')
      else write_rest rest written io''

  -- `__iob_write`
  unfoldable pub iob_write : BufMode → List ℕ → Io → Run (ℕ × Io)
  iob_write mode bytes io =
      let f_len = flushed_len mode bytes in
      if f_len == 0
      then write_rest bytes 0 io
      else write_flushed (take f_len bytes) (drop f_len bytes) io

-- `iob_write` and `iob_flush` of ukernel/ulog.c: `sent` is what `console_write` was given.
unfoldable pub ulog_write : List ℕ → Io → ℕ × Io
ulog_write bytes io = (length bytes, record io { sent = io.sent ++ bytes })

unfoldable pub ulog_flush : Io → Bool × Io
ulog_flush io = (false, record io { sent = io.sent ++ io.buffered; buffered = [] })
