-- ===== src/IoBuffer/Stream.antt =====
-- The input half of uklib/io_buffer/io_buffer.c on a string, as uklib/strtox.c uses it: a stream of
-- bytes, of which the last one read can be put back.
use cyanea.Prelude.{
  take-drop, drop-append, ℕ, suc, ◌+◌, ◌-◌, ◌≡◌, refl, sym, subst, ◌∙◌, ◌⊎◌, inl, inr, min, true,
  false, List, [], ◌∷◌, ◌++◌, append_assoc, some, arith, ltb, ◌==◌, length, length-append,
  set_at_end, take, drop, ok,
}
use cyanea.IoBuffer.Input.{Input, pushed, iob_ungetc, refill, take_out, read_loop, iob_read}
use cyanea.Strtox.{read_string, no_flush, scratch_input}

-- The buffer holds the bytes `pre`, which are read, `win`, which are not, and `post`.
abbrev pub io_at : List ℕ → List ℕ → List ℕ → Input
io_at pre win post = record {
  in_count = length win;
  out_count = 0;
  bytes = pre ++ (win ++ post);
  buf_size = 32;
  inptr = some (length pre);
  io_unget_slop = 0;
}

take_window :
    (c : ℕ) (pre win post : List ℕ)
    → take_out read_string no_flush 1 (io_at pre (c ∷ win) post)
      ≡ ok (c ∷ [], io_at (pre ++ c ∷ []) win post)
unfolding take_out
take_window c pre win post =
    let here = drop-append pre (c ∷ win ++ post) in
    let inside : ltb (length (pre ++ (c ∷ win ++ post))) (length pre + 1) ≡ false =
      ground (arith, length-append pre (c ∷ win ++ post)) in
    let one_less : suc (length win) - 1 ≡ length win = omega arith in
    let next : length pre + 1 ≡ length (pre ++ c ∷ []) = sym (length-append pre (c ∷ [])) in
    rw (take_out, inside, here, one_less, next, ← append_assoc pre (c ∷ []) (win ++ post)) refl

loop_window :
    (fuel c : ℕ) (pre win post s : List ℕ)
    → read_loop read_string no_flush (suc (suc fuel)) 1 [] (io_at pre (c ∷ win) post) s
      ≡ ok (c ∷ [], io_at (pre ++ c ∷ []) win post, s)
unfolding read_loop
loop_window fuel c pre win post s =
    let more : (suc (length win) == 0) ≡ false = ground arith in
    let one : min 1 (suc (length win)) ≡ 1 = omega arith in
    rw (read_loop, more, one, take_window c pre win post) refl

read_end :
    (pre post : List ℕ)
    → iob_read read_string no_flush 1 (io_at pre [] post) [] ≡ ok ([], io_at pre [] post, [])
unfolding iob_read read_loop refill
read_end pre post = refl

-- What stands in the buffer behind the bytes that fill it anew.
abbrev behind : List ℕ → List ℕ → List ℕ → List ℕ
behind s pre post = drop (suc (length (take 31 s))) (pre ++ post)

refill_at :
    (c : ℕ) (s pre post : List ℕ)
    → refill read_string no_flush 1 (io_at pre [] post) (c ∷ s)
      ≡ (some [], io_at [] (c ∷ take 31 s) (behind s pre post), drop 31 s)
unfolding refill
refill_at c s pre post =
    let more : (suc (length (take 31 s)) == 0) ≡ false = ground arith in
    let first : 0 + suc (length (take 31 s)) ≡ suc (length (take 31 s)) = omega arith in
    rw (refill, more, first) refl

refill_round :
    (fuel count : ℕ) (done got s s' : List ℕ) (io io' : Input)
    → (count == 0) ≡ false
    → (io.in_count == 0) ≡ true
    → refill read_string no_flush count io s ≡ (some got, io', s')
    → read_loop read_string no_flush (suc fuel) count done io s
      ≡ read_loop read_string no_flush fuel (count - length got) (done ++ got) io' s'
unfolding read_loop
refill_round fuel count done got s s' io io' a b e = rw (read_loop, a, b, e, e) refl

read_more :
    (c : ℕ) (s pre post : List ℕ)
    → iob_read read_string no_flush 1 (io_at pre [] post) (c ∷ s)
      ≡ ok (c ∷ [], io_at (c ∷ []) (take 31 s) (behind s pre post), drop 31 s)
unfolding iob_read
read_more c s pre post =
    refill_round 2 1 [] [] (c ∷ s) (drop 31 s) (io_at pre [] post)
      (io_at [] (c ∷ take 31 s) (behind s pre post)) refl refl (refill_at c s pre post)
    ∙ loop_window 0 c [] (take 31 s) (behind s pre post) (drop 31 s)

unget_at :
    (d x : ℕ) (pre win post : List ℕ)
    → iob_ungetc d (io_at (pre ++ x ∷ []) win post) ≡ ok (pushed d, io_at pre (d ∷ win) post)
unfolding iob_ungetc
unget_at d x pre win post =
    let long : length (pre ++ x ∷ []) ≡ suc (length pre) =
      omega (arith, length-append pre (x ∷ [])) in
    let more : length win + 1 ≡ suc (length win) = omega arith in
    rw (long, append_assoc pre (x ∷ []) (win ++ post), set_at_end pre (win ++ post) x d, more) refl

-- What a string's buffer and the rest of the string still give: `rest`.
pub record Streams (io : Input) (s rest : List ℕ) : Type 0 where
  pub pre : List ℕ
  pub win : List ℕ
  pub post : List ℕ
  pub at : (io ≡ io_at pre win post) ⊎ ((io ≡ scratch_input post) × (win ≡ []))
  pub gives : rest ≡ win ++ s

-- The last byte is put back.
pub record Back (io : Input) (s rest : List ℕ) : Type 0 where
  pub back :
      (d : ℕ) → (io' : Input) × (iob_ungetc d io ≡ ok (pushed d, io')) × Streams io' s (d ∷ rest)

Back-at : (x : ℕ) (pre win post s : List ℕ) → Back (io_at (pre ++ x ∷ []) win post) s (win ++ s)
Back-at x pre win post s = record {
  back = λ d. (
    io_at pre (d ∷ win) post,
    unget_at d x pre win post,
    record { pre = pre; win = d ∷ win; post = post; at = inl refl; gives = refl },
  );
}

-- One byte is read.
pub record Got (io : Input) (s : List ℕ) (c : ℕ) (rest : List ℕ) : Type 0 where
  pub next : Input
  pub left : List ℕ
  pub reads : iob_read read_string no_flush 1 io s ≡ ok (c ∷ [], next, left)
  pub streams : Streams next left rest
  pub back : Back next left rest

Got-refilled :
    (io : Input) (x : ℕ) (s post : List ℕ)
    → iob_read read_string no_flush 1 io (x ∷ s)
      ≡ ok (x ∷ [], io_at (x ∷ []) (take 31 s) post, drop 31 s)
    → Got io (x ∷ s) x s
Got-refilled io x s post e = record {
  next = io_at (x ∷ []) (take 31 s) post;
  left = drop 31 s;
  reads = e;
  streams = record {
    pre = x ∷ [];
    win = take 31 s;
    post = post;
    at = inl refl;
    gives = sym (take-drop 31 s);
  };
  back = subst (Back _ (drop 31 s)) (take-drop 31 s) (Back-at x [] (take 31 s) post (drop 31 s));
}

Got-window : (x : ℕ) (pre win post s : List ℕ) → Got (io_at pre (x ∷ win) post) s x (win ++ s)
unfolding iob_read
Got-window x pre win post s = record {
  next = io_at (pre ++ x ∷ []) win post;
  left = s;
  reads = loop_window 1 x pre win post s;
  streams = record { pre = pre ++ x ∷ []; win = win; post = post; at = inl refl; gives = refl };
  back = Back-at x pre win post s;
}

refill_fresh :
    (c : ℕ) (s post : List ℕ)
    → refill read_string no_flush 1 (scratch_input post) (c ∷ s)
      ≡ (some [], io_at [] (c ∷ take 31 s) (behind s [] post), drop 31 s)
unfolding refill
refill_fresh c s post =
    let more : (suc (length (take 31 s)) == 0) ≡ false = ground arith in
    let first : 0 + suc (length (take 31 s)) ≡ suc (length (take 31 s)) = omega arith in
    rw (refill, more, first) refl

read_fresh :
    (c : ℕ) (s post : List ℕ)
    → iob_read read_string no_flush 1 (scratch_input post) (c ∷ s)
      ≡ ok (c ∷ [], io_at (c ∷ []) (take 31 s) (behind s [] post), drop 31 s)
unfolding iob_read
read_fresh c s post =
    refill_round 2 1 [] [] (c ∷ s) (drop 31 s) (scratch_input post)
      (io_at [] (c ∷ take 31 s) (behind s [] post)) refl refl (refill_fresh c s post)
    ∙ loop_window 0 c [] (take 31 s) (behind s [] post) (drop 31 s)

pub read-Got :
    (io : Input) (s : List ℕ) (c : ℕ) (rest : List ℕ) → Streams io s (c ∷ rest) → Got io s c rest
read-Got io s c rest h = go h.pre h.win h.post s h.at h.gives
  where
    go :
        (pre win post s : List ℕ)
        → (io ≡ io_at pre win post) ⊎ ((io ≡ scratch_input post) × (win ≡ []))
        → c ∷ rest ≡ win ++ s
        → Got io s c rest
    go pre [] post [] e g = absurd cc
    go pre [] post (x ∷ s) (inl e) g =
        let head : c ≡ x = cc in
        let tail : rest ≡ s = cc in
        rw (e, head, tail)
          (Got-refilled (io_at pre [] post) x s (behind s pre post) (read_more x s pre post))
    go pre [] post (x ∷ s) (inr (e, f)) g =
        let head : c ≡ x = cc in
        let tail : rest ≡ s = cc in
        rw (e, head, tail)
          (Got-refilled (scratch_input post) x s (behind s [] post) (read_fresh x s post))
    go pre (x ∷ win) post s (inl e) g =
        let head : c ≡ x = cc in
        let tail : rest ≡ win ++ s = cc in rw (e, head, tail) (Got-window x pre win post s)
    go pre (x ∷ win) post s (inr (e, f)) g = absurd cc

-- Nothing is left.
pub read-end :
    (io : Input) (s : List ℕ)
    → Streams io s []
    → iob_read read_string no_flush 1 io s ≡ ok ([], io, [])
unfolding iob_read read_loop refill
read-end io s h = go h.pre h.win h.post s h.at h.gives
  where
    go :
        (pre win post s : List ℕ)
        → (io ≡ io_at pre win post) ⊎ ((io ≡ scratch_input post) × (win ≡ []))
        → [] ≡ win ++ s
        → iob_read read_string no_flush 1 io s ≡ ok ([], io, [])
    go pre [] post [] (inl e) g = rw e refl
    go pre [] post [] (inr (e, f)) g = rw e refl
    go pre [] post (x ∷ s) e g = absurd cc
    go pre (x ∷ win) post s e g = absurd cc

pub scratch-Streams : (scratch str : List ℕ) → Streams (scratch_input scratch) str str
scratch-Streams scratch str = record {
  pre = [];
  win = [];
  post = scratch;
  at = inr (refl, refl);
  gives = refl;
}

pub end-Streams : (io : Input) (s : List ℕ) → Streams io s [] → Streams io [] []
end-Streams io s h = go h.pre h.win h.post s h.at h.gives
  where
    go :
        (pre win post s : List ℕ)
        → (io ≡ io_at pre win post) ⊎ ((io ≡ scratch_input post) × (win ≡ []))
        → [] ≡ win ++ s
        → Streams io [] []
    go pre [] post s e g = record { pre = pre; win = []; post = post; at = e; gives = refl }
    go pre (x ∷ win) post s e g = absurd cc
