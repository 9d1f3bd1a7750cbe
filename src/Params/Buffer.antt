-- ===== src/Params/Buffer.antt =====
-- `__param_get_option` of ukernel/params.c never writes outside the buffer.
use cyanea.Prelude.{
  ℕ, ◌-◌, ◌≤◌, ◌<◌, ◌≡◌, ◌⊎◌, refl, min, true, false, List, [], ◌∷◌, ◌++◌, Option, none, some,
  arith, ◌==◌, length, length-append, Bool-cases, inl, inr,
}
use cyanea.Params.{
  Mode, word_start, word_cmp, word_skip, buf_copy, Scan, Round, go_on, boolean, round, Answer,
  is_boolean, found, finish, scan, scan_start, get_option,
}

-- As many bytes are stored as were counted, up to one less than the buffer holds.
abbrev Counted : ℕ → Option ℕ → List ℕ → Type 0
Counted buf_len none stored = length stored ≡ 0
Counted buf_len (some n) stored = length stored ≡ min n (buf_len - 1)

abbrev CountedRound : ℕ → Round → Type 0
CountedRound buf_len (go_on s) = Counted buf_len s.n s.stored
CountedRound buf_len boolean = Unit

round-Counted :
    (option : List ℕ) (buf_len ch : ℕ) (state : Mode) (op : List ℕ) (n : Option ℕ) (stored : List ℕ)
    → Counted buf_len n stored
    → CountedRound buf_len
        (round option buf_len ch (record { state = state; op = op; n = n; stored = stored }))
unfolding round
round-Counted [] buf_len ch word_start op n stored h = ground arith
round-Counted (c ∷ cs) buf_len ch word_start op n stored h = ground arith
round-Counted option buf_len ch word_cmp [] n stored h = ground arith
round-Counted option buf_len ch word_cmp (c ∷ cs) n stored h = ground arith
round-Counted option buf_len ch word_skip op n stored h = ground arith
round-Counted option buf_len ch buf_copy op none stored h = ground arith
round-Counted option buf_len ch buf_copy op (some n) stored h =
    ground (arith, length-append stored (ch ∷ []))

-- The bytes of the value that are counted.
abbrev pub counted : Option ℕ → ℕ
counted none = 0
counted (some n) = n

-- What is in the buffer at the end: nothing in an empty one, and else so many bytes and a NUL.
abbrev pub Within : ℕ → Answer → Type 0
Within buf_len (is_boolean buf) = length buf ≤ buf_len - 1
Within buf_len (found n buf) =
    ((buf_len ≡ 0) × (buf ≡ []))
    ⊎ ((0 < buf_len)
        × (value : List ℕ) × (buf ≡ value ++ 0 ∷ [])
        × (length value ≡ min (counted n) (buf_len - 1)))

nothing : (stored : List ℕ) → length stored ≡ 0 → stored ≡ []
nothing [] h = refl
nothing (c ∷ stored) h = absurd (omega arith)

Counted-length :
    (buf_len : ℕ) (n : Option ℕ) (stored : List ℕ)
    → Counted buf_len n stored
    → length stored ≡ min (counted n) (buf_len - 1)
Counted-length buf_len none stored h = omega arith
Counted-length buf_len (some n) stored h = h

finish-Within :
    (buf_len : ℕ) (s : Scan) → Counted buf_len s.n s.stored → Within buf_len (finish buf_len s)
unfolding finish
finish-Within buf_len s h =
    let size = Counted-length buf_len s.n s.stored h in
    elim (Bool-cases (buf_len == 0)) [
      | inl e ↦
          let empty : buf_len ≡ 0 = ground arith in
          rw e (inl (empty, nothing s.stored (omega arith)))
      | inr e ↦ let room : 0 < buf_len = ground arith in rw e (inr (room, s.stored, refl, size))
    ]

boolean-Within :
    (buf_len : ℕ) (n : Option ℕ) (stored : List ℕ)
    → Counted buf_len n stored
    → length stored ≤ buf_len - 1
boolean-Within buf_len none stored h = omega arith
boolean-Within buf_len (some n) stored h = omega arith

scan-Within :
    (option : List ℕ) (buf_len left : ℕ) (cs : List ℕ) (s : Scan)
    → Counted buf_len s.n s.stored
    → Within buf_len (scan option buf_len left cs s)
unfolding scan
scan-Within option buf_len left [] s h =
    close (round option buf_len 0 s) (round-Counted option buf_len 0 s.state s.op s.n s.stored h)
  where
    close :
        (r : Round)
        → CountedRound buf_len r
        → Within buf_len (elim r [ boolean ↦ is_boolean s.stored | go_on s' ↦ finish buf_len s' ])
    close boolean k = boolean-Within buf_len s.n s.stored h
    close (go_on s') k = finish-Within buf_len s' k
scan-Within option buf_len left (ch ∷ cs) s h =
    close (round option buf_len ch s) (round-Counted option buf_len ch s.state s.op s.n s.stored h)
      (λ s' k. scan-Within option buf_len (left - 1) cs s' k)
  where
    close :
        (r : Round)
        → CountedRound buf_len r
        → ((s' : Scan)
            → Counted buf_len s'.n s'.stored
            → Within buf_len (scan option buf_len (left - 1) cs s'))
        → Within buf_len (elim r [
          | boolean ↦ is_boolean s.stored
          | go_on s' ↦ elim (ch == 0) [
            | true ↦ finish buf_len s'
            | false ↦ elim (left == 0) [
              | true ↦ finish buf_len s'
              | false ↦ scan option buf_len (left - 1) cs s'
            ]
          ]
        ])
    close boolean k next = boolean-Within buf_len s.n s.stored h
    close (go_on s') k next = elim (Bool-cases (ch == 0)) [
      | inl last ↦ rw last (finish-Within buf_len s' k)
      | inr more ↦ rw more (elim (Bool-cases (left == 0)) [
        | inl out ↦ rw out (finish-Within buf_len s' k)
        | inr some_left ↦ rw some_left (next s' k)
      ])
    ]

-- On every command line the search for an option stays within a buffer of `buf_len` bytes: with -2
-- less than `buf_len` bytes are written, or none; else nothing is written where `buf_len` is 0, and
-- where it is not, a NUL is written behind the bytes of the value, none with -1, and with a count `n`
-- the smaller of `n` and `buf_len - 1`.
pub get_option-Within :
    (cmdline : List ℕ) (cmdline_len : ℕ) (option : List ℕ) (buf_len : ℕ)
    → Within buf_len (get_option (some cmdline) cmdline_len option buf_len)
unfolding get_option
get_option-Within cmdline cmdline_len option buf_len =
    scan-Within option buf_len (cmdline_len - 1) cmdline scan_start refl
