-- ===== src/Strtox/Guess.antt =====
-- How `iob_strtoull` of uklib/io_buffer/strtox.c finds the base that is left open.
use cyanea.Prelude.{
  ℕ, ◌≡◌, refl, inl, inr, true, false, ◌||◌, List, [], ◌∷◌, arith, ◌==◌, if◌then◌else◌, Run, ok,
  Returns, returns, Bool-cases,
}
use cyanea.IoBuffer.Input.{Input, Pushed, pushed, iob_read, iob_ungetc}
use cyanea.IoBuffer.Stream.{Streams, Back, read-Got, read-end, end-Streams}
use cyanea.Strtox.{unget, guess_base, read_string, no_flush}

-- `__iob_ungetc` behind a byte that was read.
pub unget_back :
    (d : ℕ) (io io' : Input) (p : Pushed) → iob_ungetc d io ≡ ok (p, io') → unget d io ≡ ok io'
unfolding unget
unget_back d io io' p e = rw e refl

-- The base that a leading 0 or 0x stands for, and what is left to read.
unfoldable pub guessed : List ℕ → ℕ × List ℕ
guessed [] = (0, [])
guessed (c ∷ []) = if c == b'0' then (8, []) else (10, c ∷ [])
guessed (c ∷ x ∷ cs) =
    if c == b'0'
    then (if x == b'x' || x == b'X' then (16, cs) else (8, x ∷ cs))
    else (10, c ∷ x ∷ cs)

module _ (io : Input) (s : List ℕ) where
  no_byte :
      iob_read read_string no_flush 1 io s ≡ ok ([], io, [])
      → guess_base read_string no_flush io s ≡ ok (0, io, [])
  unfolding guess_base
  no_byte e = ground (arith, e)

  module _ (c : ℕ) (io₁ : Input) (s₁ : List ℕ)
      (reads : iob_read read_string no_flush 1 io s ≡ ok (c ∷ [], io₁, s₁)) where
    decimal :
        (io₂ : Input)
        → (c == b'0') ≡ false
        → unget c io₁ ≡ ok io₂
        → guess_base read_string no_flush io s ≡ ok (10, io₂, s₁)
    unfolding guess_base
    decimal io₂ e u = ground (arith, reads, e, u)

    zero_alone :
        (c == b'0') ≡ true
        → iob_read read_string no_flush 1 io₁ s₁ ≡ ok ([], io₁, [])
        → guess_base read_string no_flush io s ≡ ok (8, io₁, [])
    unfolding guess_base
    zero_alone e f = ground (arith, reads, e, f)

    hex :
        (x : ℕ) (io₂ : Input) (s₂ : List ℕ)
        → (c == b'0') ≡ true
        → iob_read read_string no_flush 1 io₁ s₁ ≡ ok (x ∷ [], io₂, s₂)
        → (x == b'x' || x == b'X') ≡ true
        → guess_base read_string no_flush io s ≡ ok (16, io₂, s₂)
    unfolding guess_base
    hex x io₂ s₂ e f g = ground (arith, reads, e, f, g)

    octal :
        (x : ℕ) (io₂ io₃ : Input) (s₂ : List ℕ)
        → (c == b'0') ≡ true
        → iob_read read_string no_flush 1 io₁ s₁ ≡ ok (x ∷ [], io₂, s₂)
        → (x == b'x' || x == b'X') ≡ false
        → unget x io₂ ≡ ok io₃
        → guess_base read_string no_flush io s ≡ ok (8, io₃, s₂)
    unfolding guess_base
    octal x io₂ io₃ s₂ e f g u = ground (arith, reads, e, f, g, u)

pub record Guess (str : List ℕ) (r : ℕ × Input × List ℕ) : Type 0 where
  pub base : r.0 ≡ (guessed str).0
  pub left : Streams r.1 r.2 (guessed str).1

-- What a run that is known returns.
guess :
    {str : List ℕ} {run : Run (ℕ × Input × List ℕ)} (base : ℕ) (io : Input) (s : List ℕ)
    → run ≡ ok (base, io, s)
    → base ≡ (guessed str).0
    → Streams io s (guessed str).1
    → Returns (Guess str) run
guess base io s e b h = rw e (returns (base, io, s) (record { base = b; left = h }))

-- A byte that is put back.
pub restored :
    (d : ℕ) (io : Input) (s rest : List ℕ)
    → Back io s rest
    → (io' : Input) × (unget d io ≡ ok io') × Streams io' s (d ∷ rest)
restored d io s rest b =
    let (io', pushes, h) = b.back d in (io', unget_back d io io' (pushed d) pushes, h)

pub guess_base-Guess :
    (str : List ℕ) (io : Input) (s : List ℕ)
    → Streams io s str
    → Returns (Guess str) (guess_base read_string no_flush io s)
unfolding guessed
guess_base-Guess [] io s h =
    guess 0 io [] (no_byte io s (read-end io s h)) refl (end-Streams io s h)
guess_base-Guess (c ∷ []) io s h =
    let g = read-Got io s c [] h in
    let (io', unread, h') = restored c g.next g.left [] g.back in
    elim (Bool-cases (c == b'0')) [
      | inl z ↦
          guess 8 g.next []
            (zero_alone io s c g.next g.left g.reads z (read-end g.next g.left g.streams))
            (rw z refl) (rw z (end-Streams g.next g.left g.streams))
      | inr d ↦
          guess 10 io' g.left (decimal io s c g.next g.left g.reads io' d unread) (rw d refl)
            (rw d h')
    ]
guess_base-Guess (c ∷ x ∷ cs) io s h =
    let g = read-Got io s c (x ∷ cs) h in
    let (io', unread, h') = restored c g.next g.left (x ∷ cs) g.back in
    let g₂ = read-Got g.next g.left x cs g.streams in
    let (io₂, unread₂, h₂) = restored x g₂.next g₂.left cs g₂.back in
    elim (Bool-cases (c == b'0')) [
      | inr d ↦
          guess 10 io' g.left (decimal io s c g.next g.left g.reads io' d unread) (rw d refl)
            (rw d h')
      | inl z ↦ elim (Bool-cases (x == b'x' || x == b'X')) [
        | inl hexed ↦
            guess 16 g₂.next g₂.left
              (hex io s c g.next g.left g.reads x g₂.next g₂.left z g₂.reads hexed)
              (rw (z, hexed) refl) (rw (z, hexed) g₂.streams)
        | inr plain ↦
            guess 8 io₂ g₂.left
              (octal io s c g.next g.left g.reads x g₂.next io₂ g₂.left z g₂.reads plain unread₂)
              (rw (z, plain) refl) (rw (z, plain) h₂)
      ]
    ]
