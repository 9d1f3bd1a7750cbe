-- ===== src/IoBuffer/Line.antt =====
-- With the operations of ukernel/ulog.c no byte is lost, and no line waits in the buffer.
use cyanea.Prelude.{
  take-drop, ℕ, zero, suc, ◌+◌, ◌≤◌, ◌≡◌, ◌≢◌, refl, ap, subst, ◌∙◌, ◌⊎◌, inl, inr, true, List, [],
  ◌∷◌, ◌++◌, append_assoc, append-nil, none, some, arith, ◌==◌, length, length-append, get_elem?,
  take, drop, All, Returns, Returns-bind, Returns_mono, Bool-cases,
}
use cyanea.IoBuffer.{
  line_buffered, Io, newline, line_len, flushed_len, write_flushed, iob_write, ulog_write,
  ulog_flush,
}
use cyanea.IoBuffer.Fill.{Ready, Wrote, wbuffer_no_flush-Wrote, write_rest-Wrote}

-- A byte that does not end a line.
abbrev pub Inner : ℕ → Type 0
Inner ch = ch ≢ newline

drop-cases :
    (xs : List ℕ) (i : ℕ)
    → ((get_elem? xs i ≡ none) × (drop i xs ≡ []))
      ⊎ ((x : ℕ) × (get_elem? xs i ≡ some x) × (drop i xs ≡ x ∷ drop (suc i) xs))
drop-cases [] zero = inl (refl, refl)
drop-cases [] (suc i) = inl (refl, refl)
drop-cases (x ∷ xs) zero = inr (x, refl, refl)
drop-cases (x ∷ xs) (suc i) = drop-cases xs i

line_len-Inner :
    (bytes : List ℕ) (f_len : ℕ)
    → All Inner (drop f_len bytes)
    → (line_len bytes f_len ≤ f_len) × All Inner (drop (line_len bytes f_len) bytes)
unfolding line_len
line_len-Inner bytes zero h = (omega arith, h)
line_len-Inner bytes (suc f_len) h = elim (drop-cases bytes f_len) [
  | inl (e, d) ↦
      let (l, inner) = line_len-Inner bytes f_len (rw d tt) in rw (line_len, e) (omega arith, inner)
  | inr (ch, e, d) ↦ elim (Bool-cases (ch == newline)) [
    | inl ends ↦ rw (line_len, e, ends) (omega arith, h)
    | inr goes_on ↦
        let differs : ch ≢ newline = (λ same. ground arith) in
        let (l, inner) = line_len-Inner bytes f_len (rw d (differs, h)) in
        rw (line_len, e, goes_on) (omega arith, inner)
  ]
]

abbrev Anything : ℕ → Type 0
Anything ch = Unit

All-Anything : (xs : List ℕ) → All Anything xs
All-Anything [] = tt
All-Anything (x ∷ xs) = (tt, All-Anything xs)

drop_all : (xs : List ℕ) → drop (length xs) xs ≡ []
drop_all [] = refl
drop_all (x ∷ xs) = drop_all xs

write_flushed-Wrote :
    (bytes rest : List ℕ) (io : Io)
    → All Inner rest
    → Ready Anything io
    → Returns
        (Wrote Inner (length bytes + length rest) ((io.sent ++ io.buffered) ++ bytes ++ rest))
        (write_flushed ulog_write ulog_flush bytes rest io)
unfolding write_flushed ulog_flush
write_flushed-Wrote bytes rest io h r =
    Returns-bind
      (Wrote Inner (length bytes + length rest) ((io.sent ++ io.buffered) ++ bytes ++ rest)) _
      (wbuffer_no_flush-Wrote Anything bytes io (All-Anything bytes) r)
      (λ (written, io') w.
        let all : (written == length bytes) ≡ true = (let e = w.counted in ground arith) in
        let emptied : Io = record io' { sent = io'.sent ++ io'.buffered; buffered = [] } in
        let s = w.still in
        let ready : Ready Inner emptied = record {
          output = s.output;
          sized = s.sized;
          fits = omega arith;
          pending = tt;
        } in
        rw all (
          Returns_mono (write_rest-Wrote Inner rest written emptied h ready) (λ end v. record {
            counted = v.counted ∙ ap (λ t. t + length rest) w.counted;
            sequence =
                v.sequence
                ∙ ap (λ l. l ++ rest) (append-nil (io'.sent ++ io'.buffered) ∙ w.sequence);
            still = v.still;
          })))

-- The buffer of the kernel's log is line-buffered. In a state without input whose bytes fit in the
-- buffer and hold no newline, every write returns and counts all its bytes; the bytes handed to
-- the console and those that wait in the buffer are those from before and the new ones, in order;
-- and what waits still fits and holds no newline: every line that is complete has reached the
-- console.
pub iob_write-Wrote :
    (bytes : List ℕ) (io : Io)
    → Ready Inner io
    → Returns
        (Wrote Inner (length bytes) ((io.sent ++ io.buffered) ++ bytes))
        (iob_write ulog_write ulog_flush line_buffered bytes io)
unfolding iob_write flushed_len
iob_write-Wrote bytes io r =
    let f_len = line_len bytes (length bytes) in
    let (l, inner) = line_len-Inner bytes (length bytes) (rw (drop_all bytes) tt) in
    elim (Bool-cases (f_len == 0)) [
      | inl no_line ↦
          let none_flushed : f_len ≡ 0 = ground arith in
          let no_end : All Inner bytes = subst (λ n. All Inner (drop n bytes)) none_flushed inner in
          let all : 0 + length bytes ≡ length bytes = omega arith in
          rw no_line (
            Returns_mono (write_rest-Wrote Inner bytes 0 io no_end r) (λ end w. record {
              counted = w.counted ∙ all;
              sequence = w.sequence;
              still = w.still;
            }))
      | inr lines ↦
          let first = take f_len bytes in
          let rest = drop f_len bytes in
          let any : Ready Anything io = record {
            output = r.output;
            sized = r.sized;
            fits = r.fits;
            pending = All-Anything io.buffered;
          } in
          let all : length first + length rest ≡ length bytes =
            omega (arith, length-append first rest, ap length (take-drop f_len bytes)) in
          rw lines (
            Returns_mono (write_flushed-Wrote first rest io inner any) (λ end w. record {
              counted = w.counted ∙ all;
              sequence =
                  w.sequence
                  ∙ append_assoc (io.sent ++ io.buffered) first rest
                  ∙ ap (λ l. (io.sent ++ io.buffered) ++ l) (take-drop f_len bytes);
              still = w.still;
            }))
    ]
