-- ===== src/Params/Single.antt =====
-- `__param_get_option` of ukernel/params.c on a command line that gives one value to the option.
use cyanea.Prelude.{
  ℕ, suc, ◌+◌, ◌-◌, ◌≤◌, ◌<◌, ◌≡◌, ◌≢◌, refl, ap, ◌∙◌, true, false, List, [], ◌∷◌, ◌++◌,
  append_assoc, append-nil, Option, none, some, arith, ◌==◌, ltb, length, All,
}
use cyanea.Params.{
  Mode, word_cmp, word_skip, buf_copy, Scan, round, found, finish, scan, scan_start, get_option,
  dispatch, compare_word, copy_byte, space, equals,
}

-- A byte of a word: no space, and not the end.
abbrev pub InWord : ℕ → Type 0
InWord c = (c ≢ 0) × (c ≢ space)

abbrev state : Mode → List ℕ → Option ℕ → List ℕ → Scan
state mode op n stored = record { state = mode; op = op; n = n; stored = stored }

module _ (option : List ℕ) (buf_len : ℕ) where
  -- The rest of the option is compared.
  scan_option :
      (op rest : List ℕ) (left : ℕ)
      → All InWord op
      → length op ≤ left
      → scan option buf_len left (op ++ rest) (state word_cmp op none [])
        ≡ scan option buf_len (left - length op) rest (state word_cmp [] none [])
  unfolding scan round
  scan_option [] rest left h fits =
      ap (λ n. scan option buf_len n rest (state word_cmp [] none [])) (omega arith)
  scan_option (c ∷ op) rest left ((a, b), h) fits =
      let self : (c == c) ≡ true = ground arith in
      let more : (c == 0) ≡ false = ground arith in
      let some_left : (left == 0) ≡ false = ground arith in
      rw (scan, round, dispatch, compare_word, self, more, some_left)
        (scan_option op rest (left - 1) h (omega arith)
          ∙ ap (λ n. scan option buf_len n rest (state word_cmp [] none [])) (omega arith))

  -- The value is copied.
  scan_value :
      (v rest stored : List ℕ) (n left : ℕ)
      → All InWord v
      → length v ≤ left
      → n + length v < buf_len
      → scan option buf_len left (v ++ rest) (state buf_copy [] (some n) stored)
        ≡ scan option buf_len
            (left - length v)
            rest
            (state buf_copy [] (some (n + length v)) (stored ++ v))
  unfolding scan round
  scan_value [] rest stored n left h fits room =
      let same_left : left - 0 ≡ left = omega arith in
      let same_count : n + 0 ≡ n = omega arith in rw (same_left, same_count, append-nil stored)
  scan_value (c ∷ v) rest stored n left ((a, b), h) fits room =
      let more : (c == 0) ≡ false = ground arith in
      let some_left : (left == 0) ≡ false = ground arith in
      let no_space : (c == space) ≡ false = ground arith in
      let has_room : ltb (n + 1) buf_len ≡ true = ground arith in
      let later : left - 1 - length v ≡ left - suc (length v) = omega arith in
      let counted : n + 1 + length v ≡ n + suc (length v) = omega arith in
      rw (scan, more, some_left, copy_byte, no_space, has_room)
        (scan_value v rest (stored ++ c ∷ []) (n + 1) (left - 1) h (omega arith) (omega arith)
          ∙ rw (later, counted, append_assoc stored (c ∷ []) v))

  -- The first character of the option, at the start of a word.
  scan_first :
      (c : ℕ) (op rest : List ℕ) (left : ℕ)
      → option ≡ c ∷ op
      → InWord c
      → 0 < left
      → scan option buf_len left (c ∷ rest) scan_start
        ≡ scan option buf_len (left - 1) rest (state word_cmp op none [])
  unfolding scan round
  scan_first c op rest left e (a, b) fits =
      let self : (c == c) ≡ true = ground arith in
      let more : (c == 0) ≡ false = ground arith in
      let some_left : (left == 0) ≡ false = ground arith in
      let no_space : (c == space) ≡ false = ground arith in
      rw (scan, round, dispatch, no_space, e, compare_word, self, more, some_left)

  -- `=` behind the option.
  scan-equals :
      (rest : List ℕ) (left : ℕ)
      → 0 < left
      → scan option buf_len left (equals ∷ rest) (state word_cmp [] none [])
        ≡ scan option buf_len (left - 1) rest (state buf_copy [] (some 0) [])
  unfolding scan round
  scan-equals rest left fits =
      let some_left : (left == 0) ≡ false = ground arith in rw (scan, some_left)

  -- The command line `option=value`, and what follows the value.
  scan_single :
      (c : ℕ) (op v rest : List ℕ) (left : ℕ)
      → option ≡ c ∷ op
      → InWord c
      → All InWord op
      → All InWord v
      → length op + length v + 2 ≤ left
      → length v < buf_len
      → scan option buf_len left (c ∷ (op ++ equals ∷ (v ++ rest))) scan_start
        ≡ scan option buf_len
            (left - (length op + length v + 2))
            rest
            (state buf_copy [] (some (length v)) v)
  scan_single c op v rest left e in_word all_op all_v fits room =
      scan_first c op (op ++ equals ∷ (v ++ rest)) left e in_word (omega arith)
      ∙ scan_option op (equals ∷ (v ++ rest)) (left - 1) all_op (omega arith)
      ∙ scan-equals (v ++ rest) (left - 1 - length op) (omega arith)
      ∙ scan_value v rest [] 0 (left - 1 - length op - 1) all_v (omega arith) (omega arith)
      ∙ (let count : 0 + length v ≡ length v = omega arith in
          let far : left - 1 - length op - 1 - length v ≡ left - (length op + length v + 2) =
            omega arith in
          rw (count, far))

-- What is left of the command line where a value is being copied: a space, or the end.
scan-space :
    (c : ℕ) (op v : List ℕ) (buf_len left : ℕ)
    → c ≢ 0
    → 0 < left
    → scan (c ∷ op) buf_len left (space ∷ []) (state buf_copy [] (some (length v)) v)
      ≡ finish buf_len (state word_skip op (some (length v)) v)
unfolding scan round
scan-space c op v buf_len left ne fits =
    let some_left : (left == 0) ≡ false = ground arith in
    let no_match : (0 == c) ≡ false = ground arith in rw (scan, some_left, copy_byte, no_match)

scan_end :
    (option v : List ℕ) (buf_len left : ℕ)
    → length v + 1 < buf_len
    → scan option buf_len left [] (state buf_copy [] (some (length v)) v)
      ≡ finish buf_len (state buf_copy [] (some (length v + 1)) (v ++ 0 ∷ []))
unfolding scan round
scan_end option v buf_len left room =
    let has_room : ltb (length v + 1) buf_len ≡ true = ground arith in
    rw (scan, copy_byte, has_room)

-- For an option and a value without spaces or NULs, on a command line that is long enough and with
-- a buffer that is large enough: the value is found in `option=value`. The count is the length of
-- the value where a space follows, and one more, for the NUL that ends the command line, where
-- nothing follows; the buffer then holds the value and one NUL, or two.
pub get_option-single :
    (c : ℕ) (op v : List ℕ) (cmdline_len buf_len : ℕ)
    → All InWord (c ∷ op)
    → All InWord v
    → length op + length v + 4 ≤ cmdline_len
    → length v + 1 < buf_len
    → (get_option (some (c ∷ (op ++ equals ∷ (v ++ space ∷ [])))) cmdline_len (c ∷ op) buf_len
        ≡ found (some (length v)) (v ++ 0 ∷ []))
      × (get_option (some (c ∷ (op ++ equals ∷ (v ++ [])))) cmdline_len (c ∷ op) buf_len
          ≡ found (some (length v + 1)) ((v ++ 0 ∷ []) ++ 0 ∷ []))
unfolding get_option finish
get_option-single c op v cmdline_len buf_len (first, all_op) all_v fits room =
    let some_buffer : (buf_len == 0) ≡ false = ground arith in
    let left = cmdline_len - 1 in
    let next = left - (length op + length v + 2) in
    (
      scan_single (c ∷ op) buf_len c op v (space ∷ []) left refl first all_op all_v (omega arith)
            (omega arith)
          ∙ scan-space c op v buf_len next first.0 (omega arith)
          ∙ rw some_buffer,
      scan_single (c ∷ op) buf_len c op v [] left refl first all_op all_v (omega arith)
            (omega arith)
          ∙ scan_end (c ∷ op) v buf_len next room
          ∙ rw some_buffer,
    )
