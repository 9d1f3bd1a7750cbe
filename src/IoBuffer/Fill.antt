-- ===== src/IoBuffer/Fill.antt =====
-- The loop that fills the buffer, with the operations of ukernel/ulog.c.
use cyanea.Prelude.{
  take_all, ℕ, zero, suc, ◌+◌, ◌-◌, ◌≤◌, ◌<◌, ◌≡◌, refl, sym, ap, ◌∙◌, inl, inr, min, true, false,
  List, [], take-drop, length-take, length-drop, ◌∷◌, ◌++◌, append_assoc, append-nil, some, arith,
  ◌&&◌, leb, ◌==◌, length, length-append, take, drop, All, All-append, ok, Returns, returns,
  Returns-bind, Returns_mono, Bool-cases,
}
use cyanea.IoBuffer.{Io, make_room, put, fill, wbuffer_no_flush, write_rest, ulog_write, ulog_flush}

length_zero : (xs : List ℕ) → length xs ≡ 0 → xs ≡ []
length_zero [] h = refl
length_zero (x ∷ xs) h = absurd (omega arith)

module _ (P : ℕ → Type 0) where
  All-take : (n : ℕ) (xs : List ℕ) → All P xs → All P (take n xs)
  All-take zero xs h = tt
  All-take (suc n) [] h = tt
  All-take (suc n) (x ∷ xs) (p, h) = (p, All-take n xs h)

  All-drop : (n : ℕ) (xs : List ℕ) → All P xs → All P (drop n xs)
  All-drop zero xs h = h
  All-drop (suc n) [] h = tt
  All-drop (suc n) (x ∷ xs) (p, h) = All-drop n xs h

  -- The buffer is used for output, its bytes satisfy `P`, and there are no more than fit.
  pub record Ready (io : Io) : Type 0 where
    pub output : io.input ≡ 0
    pub sized : 0 < io.buf_size
    pub fits : length io.buffered ≤ io.buf_size
    pub pending : All P io.buffered

  -- All bytes are written: with those still in the buffer they are what was sent, in order.
  pub record Wrote (n : ℕ) (bytes : List ℕ) (r : ℕ × Io) : Type 0 where
    pub counted : r.0 ≡ n
    pub sequence : r.1.sent ++ r.1.buffered ≡ bytes
    pub still : Ready r.1

  abbrev Roomy : Io → Io → Type 0
  Roomy io io' =
      Ready io'
      × (length io'.buffered < io'.buf_size)
      × (io'.sent ++ io'.buffered ≡ io.sent ++ io.buffered)

  make_room-Roomy :
      (io : Io)
      → Ready io
      → (io' : Io) × (make_room ulog_write ulog_flush io ≡ (false, io')) × Roomy io io'
  unfolding make_room ulog_flush
  make_room-Roomy io r = elim (Bool-cases (length io.buffered == io.buf_size)) [
    | inl full ↦ (
      record io { sent = io.sent ++ io.buffered; buffered = [] },
      rw full refl,
      (
        record { output = r.output; sized = r.sized; fits = omega arith; pending = tt },
        r.sized,
        append-nil (io.sent ++ io.buffered),
      ),
    )
    | inr some_room ↦ (io, rw some_room refl, (r, (let fits = r.fits in ground arith), refl))
  ]

  abbrev Taken : List ℕ → Io → Io → ℕ → Type 0
  Taken bytes io io' n =
      Ready io'
      × (0 < n)
      × (n ≤ length bytes)
      × (io'.sent ++ io'.buffered ≡ (io.sent ++ io.buffered) ++ take n bytes)

  put-Taken :
      (bytes : List ℕ) (io : Io)
      → 0 < length bytes
      → All P bytes
      → Ready io
      → length io.buffered < io.buf_size
      → (n : ℕ) × (io' : Io) × (put ulog_write ulog_flush bytes io ≡ (some n, io'))
        × Taken bytes io io' n
  unfolding put ulog_write
  put-Taken bytes io some_bytes h r room =
      elim (Bool-cases (length io.buffered == 0 && leb io.buf_size (length bytes))) [
        | inl past ↦
            let more : (length bytes == 0) ≡ false = ground arith in
            let none_buffered : length io.buffered ≡ 0 = ground arith in
            let empty = length_zero io.buffered none_buffered in
            (
              length bytes,
              record io { sent = io.sent ++ bytes },
              rw (past, more) refl,
              (
                record { output = r.output; sized = r.sized; fits = r.fits; pending = r.pending },
                some_bytes,
                omega arith,
                rw (empty, append-nil (io.sent ++ bytes), append-nil io.sent, take_all bytes) refl,
              ),
            )
        | inr into ↦
            let count = min (length bytes) (io.buf_size - length io.buffered) in
            let taken = length-take count bytes (omega arith) in
            (
              count,
              record io { buffered = io.buffered ++ take count bytes },
              rw into refl,
              (
                record {
                  output = r.output;
                  sized = r.sized;
                  fits = omega (arith, length-append io.buffered (take count bytes), taken);
                  pending =
                      All-append P io.buffered (take count bytes) r.pending
                        (All-take count bytes h);
                },
                omega arith,
                omega arith,
                sym (append_assoc io.sent io.buffered (take count bytes)),
              ),
            )
      ]

  fill-Wrote :
      (fuel : ℕ) (bytes : List ℕ) (written : ℕ) (io : Io)
      → length bytes < fuel
      → All P bytes
      → Ready io
      → Returns
          (Wrote (written + length bytes) ((io.sent ++ io.buffered) ++ bytes))
          (fill ulog_write ulog_flush fuel bytes written io)
  unfolding fill
  fill-Wrote zero bytes written io l h r = absurd (omega arith)
  fill-Wrote (suc fuel) [] written io l h r =
      returns (written, io)
        (record {
          counted = omega arith;
          sequence = sym (append-nil (io.sent ++ io.buffered));
          still = r;
        })
  fill-Wrote (suc fuel) (ch ∷ bytes) written io l h r =
      let (io', made, (r', room, same)) = make_room-Roomy io r in
      let (n, io'', went, (r'', moved, most, next)) =
        put-Taken (ch ∷ bytes) io' (omega arith) h r' room in
      let left = length-drop n (ch ∷ bytes) in
      let more =
        fill-Wrote fuel (drop n (ch ∷ bytes)) (written + n) io'' (omega arith)
          (All-drop n (ch ∷ bytes) h) r'' in
      let count : written + n + length (drop n (ch ∷ bytes)) ≡ written + length (ch ∷ bytes) =
        omega arith in
      let sequence : (io''.sent ++ io''.buffered) ++ drop n (ch ∷ bytes)
          ≡ (io.sent ++ io.buffered) ++ ch ∷ bytes =
        rw
          (
            next,
            same,
            append_assoc (io.sent ++ io.buffered) (take n (ch ∷ bytes)) (drop n (ch ∷ bytes)),
            take-drop n (ch ∷ bytes),
          )
          refl in
      rw (fill, made, made, went, made, went)
        (Returns_mono more (λ end w. record {
          counted = w.counted ∙ count;
          sequence = w.sequence ∙ sequence;
          still = w.still;
        }))

  pub wbuffer_no_flush-Wrote :
      (bytes : List ℕ) (io : Io)
      → All P bytes
      → Ready io
      → Returns
          (Wrote (length bytes) ((io.sent ++ io.buffered) ++ bytes))
          (wbuffer_no_flush ulog_write ulog_flush bytes io)
  unfolding wbuffer_no_flush
  wbuffer_no_flush-Wrote bytes io h r =
      let no_input : (io.input == 0) ≡ true = let e = r.output in ground arith in
      let all : 0 + length bytes ≡ length bytes = omega arith in
      rw no_input (
        Returns_mono (fill-Wrote (length bytes + 1) bytes 0 io (omega arith) h r)
          (λ end w. record { counted = w.counted ∙ all; sequence = w.sequence; still = w.still }))

  pub write_rest-Wrote :
      (bytes : List ℕ) (written : ℕ) (io : Io)
      → All P bytes
      → Ready io
      → Returns
          (Wrote (written + length bytes) ((io.sent ++ io.buffered) ++ bytes))
          (write_rest ulog_write ulog_flush bytes written io)
  unfolding write_rest
  write_rest-Wrote [] written io h r =
      returns (written, io)
        (record {
          counted = omega arith;
          sequence = sym (append-nil (io.sent ++ io.buffered));
          still = r;
        })
  write_rest-Wrote (ch ∷ bytes) written io h r =
      let some_bytes : (length (ch ∷ bytes) == 0) ≡ false = ground arith in
      rw some_bytes (
        Returns-bind
          (Wrote (written + length (ch ∷ bytes)) ((io.sent ++ io.buffered) ++ ch ∷ bytes))
          (λ (n, io'). ok (written + n, io')) (wbuffer_no_flush-Wrote (ch ∷ bytes) io h r)
          (λ (n, io') w.
            returns (written + n, io')
              (record {
                counted = ap (λ t. written + t) w.counted;
                sequence = w.sequence;
                still = w.still;
              })))
