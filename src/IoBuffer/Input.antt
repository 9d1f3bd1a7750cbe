-- ===== src/IoBuffer/Input.antt =====
-- The input half of uklib/io_buffer/io_buffer.c.
use cyanea.Prelude.{
  ℕ, zero, suc, ◌+◌, ◌-◌, ◌*◌, min, Bool, true, false, List, [], ◌++◌, Option, none, some, ltb,
  ◌==◌, if◌then◌else◌, length, set, take, drop, Run, ok, fault, timeout, ◌>>=◌,
}

-- `struct io_buffer` as far as reading goes: `in_count` is `in`, `out_count` is `out`, `bytes` is
-- what `buffer` points to, `inptr` is the distance from there, or none where it is NULL.
pub record Input : Type 0 where
  pub in_count : ℕ
  pub out_count : ℕ
  pub bytes : List ℕ
  pub buf_size : ℕ
  pub inptr : Option ℕ
  pub io_unget_slop : ℕ

-- The device's bytes are stored in the buffer behind the slop.
abbrev pub store : List ℕ → Input → Input
store got io = record io {
  in_count = length got;
  bytes = take io.io_unget_slop io.bytes ++ got ++ drop (io.io_unget_slop + length got) io.bytes;
  inptr = some io.io_unget_slop;
}

-- What `__iob_ungetc` returns: an error, or the character.
pub data Pushed : Type 0 where
  einval enospc : Pushed
  pushed : ℕ → Pushed

push_at : ℕ → Option ℕ → Input → Run (Pushed × Input)
push_at c none io = fault
push_at c (some zero) io = ok (enospc, io)
push_at c (some (suc p)) io =
    ok
      (pushed c, record io { in_count = io.in_count + 1; bytes = set io.bytes p c; inptr = some p })

unfoldable pub iob_ungetc : ℕ → Input → Run (Pushed × Input)
unfolding push_at
iob_ungetc c io = if io.out_count == 0 then push_at c io.inptr io else ok (einval, io)

-- The parameters are `ops->read`, on the state of the device, and `ops->flush`, which returns
-- whether it failed.
module _ {S : Type 0} (read : ℕ → S → List ℕ × S) (flush : Input → S → Run (Bool × Input × S)) where
  -- One pass of the loops of `__iob_read` with an empty buffer: `none` where the device has nothing
  -- more; else what went past the buffer, which is nothing where the buffer was filled.
  unfoldable pub refill : ℕ → Input → S → Option (List ℕ) × Input × S
  refill count io s = elim (ltb count io.buf_size) [
    | true ↦
        let (got, s') = read io.buf_size s in
        if length got == 0 then (none, io, s') else (some [], store got io, s')
    | false ↦
        let (got, s') = read count s in
        if length got == 0 then (none, io, s') else (some got, io, s')
  ]

  -- Bytes are taken from the buffer.
  unfoldable pub take_out : ℕ → Input → Run (List ℕ × Input)
  take_out n io = elim io.inptr [
    | none ↦ fault
    | some p ↦ elim (ltb (length io.bytes) (p + n)) [
      | true ↦ fault
      | false ↦
          ok (
            take n (drop p io.bytes),
            record io { in_count = io.in_count - n; inptr = some (p + n) },
          )
    ]
  ]

  -- The loops of `__iob_read`, `fuel` rounds at most, with `count` bytes still to read.
  unfoldable pub read_loop : ℕ → ℕ → List ℕ → Input → S → Run (List ℕ × Input × S)
  read_loop zero count done io s = timeout
  read_loop (suc fuel) count done io s = elim (count == 0) [
    | true ↦ ok (done, io, s)
    | false ↦ elim (io.in_count == 0) [
      | true ↦
          let (past, io', s') = refill count io s in
          elim past [
            | none ↦ ok (done, io', s')
            | some got ↦ read_loop fuel (count - length got) (done ++ got) io' s'
          ]
      | false ↦ take_out (min count io.in_count) io >>= λ (got, io').
          read_loop fuel (count - min count io.in_count) (done ++ got) io' s
    ]
  ]

  -- `__iob_read`: a byte is taken in two rounds at most.
  unfoldable pub iob_read : ℕ → Input → S → Run (List ℕ × Input × S)
  iob_read count io s = elim (io.out_count == 0) [
    | true ↦ read_loop (count * 2 + 1) count [] io s
    | false ↦ flush io s >>= λ (err, io', s'). elim err [
      | true ↦ ok ([], io', s')
      | false ↦ read_loop (count * 2 + 1) count [] io' s'
    ]
  ]
