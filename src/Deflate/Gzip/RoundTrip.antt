-- ===== src/Deflate/Gzip/RoundTrip.antt =====
-- A gzip file of stored blocks, as RFC 1952 lays it out, is unpacked by `decompress_gzip`.
use cyanea.Prelude.{
  take_all, ℕ, ◌+◌, ◌-◌, ◌/◌, ◌%◌, ◌^◌, ◌≤◌, ◌<◌, ◌≡◌, ◌≢◌, refl, sym, ap, ◌∙◌, true, false, List,
  [], ◌∷◌, ◌++◌, append_assoc, All, length-append, Option, none, some, take-append, drop-append,
  ltb, ◌==◌, length, take, drop, ok, arith,
}
use cyanea.Deflate.State.{Tree, Inflate, is_none}
use cyanea.Deflate.Huffman.{at}
use cyanea.Deflate.Block.{get_le16, deflate_buffer}
use cyanea.Deflate.Crc.{update_crc32}
use cyanea.Deflate.Crc.Bitwise.{IsByte, update_crc32_lt}
use cyanea.Deflate.Gzip.{
  get_le32, skip_string, bad_header, skip_extra, skip_text, check_header_crc, header_end,
  decompress_gzip,
}
use cyanea.Deflate.Stored.{between, stored, concat, Fits, deflate_buffer-stored}

-- A 32-bit number, the low byte first.
abbrev pub le32 : ℕ → List ℕ
le32 n = n % 256 ∷ n / 256 % 256 ∷ n / 65536 % 256 ∷ n / 16777216 ∷ []

-- What the header holds beside the name: the time, the extra flags and the system.
pub record Stamp : Type 0 where
  pub time : ℕ
  pub extra_flags : ℕ
  pub system : ℕ

-- The magic number, the method, the flags, the stamp, and the name of the file.
abbrev pub header : Stamp → Option (List ℕ) → List ℕ
header s none = 0x1F ∷ 0x8B ∷ 8 ∷ 0 ∷ le32 s.time ++ s.extra_flags ∷ s.system ∷ []
header s (some name) =
    0x1F ∷ 0x8B ∷ 8 ∷ 8 ∷ le32 s.time ++ s.extra_flags ∷ s.system ∷ name ++ 0 ∷ []

-- The checksum and the length of the contents stand at the end.
abbrev pub trailer : List ℕ → List ℕ
trailer bytes = le32 (update_crc32 bytes) ++ le32 (length bytes % 2 ^ 32)

abbrev pub gzip : Stamp → Option (List ℕ) → List ℕ → List (List ℕ) → List ℕ
gzip s name chunk chunks = header s name ++ stored chunk chunks ++ trailer (concat (chunk ∷ chunks))

abbrev pub IsName : Option (List ℕ) → Type 0
IsName none = Unit
IsName (some name) = All (λ b. b ≢ 0) name

le32-read : (n : ℕ) (rest : List ℕ) → n < 2 ^ 32 → get_le32 (le32 n ++ rest) ≡ ok n
unfolding get_le32 get_le16 at
le32-read n rest h = ap ok (omega arith)

skip_string-name :
    (start : ℕ) (name rest : List ℕ)
    → All (λ b. b ≢ 0) name
    → skip_string start (name ++ 0 ∷ rest) ≡ some (start + length name + 1)
unfolding skip_string
skip_string-name start [] rest h = ap some (omega arith)
skip_string-name start (b ∷ name) rest (nz, h) =
    let other : (b == 0) ≡ false = ground arith in
    rw other (skip_string-name (start + 1) name rest h ∙ ap some (omega arith))

-- The whole header is skipped.
header_end-header :
    (s : Stamp) (name : Option (List ℕ)) (rest : List ℕ)
    → IsName name
    → 8 ≤ length rest
    → header_end (header s name ++ rest) ≡ ok (some (length (header s name)))
unfolding header_end bad_header skip_extra skip_text check_header_crc at
header_end-header s none rest h long =
    let enough : ltb (length (header s none ++ rest)) 18 ≡ false = ground arith in
    rw (header_end, bad_header, enough) refl
header_end-header s (some name) rest h long =
    let whole = header s (some name) ++ rest in
    let one_more : length (name ++ 0 ∷ []) ≡ length name + 1 = length-append name (0 ∷ []) in
    let enough : ltb (length whole) 18 ≡ false =
      ground (arith, length-append (name ++ 0 ∷ []) rest) in
    let named : skip_string 10 ((name ++ 0 ∷ []) ++ rest) ≡ some (length (header s (some name))) =
      ap (skip_string 10) (append_assoc name (0 ∷ []) rest)
      ∙ skip_string-name 10 name rest h
      ∙ ap some (omega (arith, one_more)) in
    ground (arith, enough, named)

-- The compressed data, between a header and eight bytes, and the last of these.
body-cut :
    (head body tail : List ℕ)
    → take
        (length (head ++ body ++ tail) - length head - length tail)
        (drop (length head) (head ++ body ++ tail))
      ≡ body
body-cut head body tail =
    let whole = head ++ body ++ tail in
    let assoc : whole ≡ head ++ (body ++ tail) = append_assoc head body tail in
    let behind : drop (length head) whole ≡ body ++ tail =
      ap (drop (length head)) assoc ∙ drop-append head (body ++ tail) in
    let size : length whole - length head - length tail ≡ length body =
      omega (arith, length-append (head ++ body) tail, length-append head body) in
    rw (size, behind) (take-append body tail)

tail-cut : (head tail : List ℕ) → drop (length (head ++ tail) - length tail) (head ++ tail) ≡ tail
tail-cut head tail =
    let size : length (head ++ tail) - length tail ≡ length head =
      omega (arith, length-append head tail) in
    rw size (drop-append head tail)

-- A file is accepted if its parts are.
accepted :
    (ll distance : Tree) (source : List ℕ) (start : ℕ) (d : Inflate)
    → header_end source ≡ ok (some start)
    → ltb (length source) (start + 8) ≡ false
    → deflate_buffer ll distance (take (length source - start - 8) (drop start source)) ≡ ok d
    → is_none d.error ≡ true
    → get_le32 (drop (length source - 8) source) ≡ ok (update_crc32 (take d.dest_size d.out))
    → decompress_gzip ll distance source ≡ ok (some (take d.dest_size d.out))
unfolding decompress_gzip
accepted ll distance source start d skipped long unpacked fine crc =
    let same : (update_crc32 (take d.dest_size d.out) == update_crc32 (take d.dest_size d.out))
        ≡ true =
      ground arith in
    ground (arith, skipped, long, unpacked, fine, crc, same)

-- Whatever the contents, cut into stored blocks of less than 64 kilobytes, and whatever the time, the
-- extra flags and the system in the header, with or without the name of the file and with no other
-- optional part, the file is accepted and the contents come back.
pub decompress_gzip-gzip :
    (ll distance : Tree) (stamp : Stamp) (name : Option (List ℕ)) (chunk : List ℕ)
    (chunks : List (List ℕ))
    → IsName name
    → Fits chunk
    → All Fits chunks
    → All IsByte (concat (chunk ∷ chunks))
    → decompress_gzip ll distance (gzip stamp name chunk chunks)
      ≡ ok (some (concat (chunk ∷ chunks)))
decompress_gzip-gzip ll distance stamp name chunk chunks n f fs b =
    let bytes = concat (chunk ∷ chunks) in
    let head = header stamp name in
    let body = stored chunk chunks in
    let tail = trailer bytes in
    let source = gzip stamp name chunk chunks in
    let skipped : header_end source ≡ ok (some (length head)) =
      ap header_end (append_assoc head body tail)
      ∙ header_end-header stamp name (body ++ tail) n (omega (arith, length-append body tail)) in
    let long : ltb (length source) (length head + 8) ≡ false =
      ground (arith, length-append (head ++ body) tail, length-append head body) in
    let cut : take (length source - length head - 8) (drop (length head) source) ≡ body =
      body-cut head body tail in
    let last : drop (length source - 8) source ≡ tail = tail-cut (head ++ body) tail in
    let crc =
      le32-read (update_crc32 bytes) (le32 (length bytes % 2 ^ 32)) (update_crc32_lt bytes b) in
    let unpacked = deflate_buffer-stored ll distance chunk chunks f fs in
    let all = take_all bytes in
    accepted ll distance source (length head) (between ll distance [] bytes (length bytes)) skipped
      long (ap (deflate_buffer ll distance) cut ∙ unpacked) refl
      (ap get_le32 last ∙ crc ∙ ap (λ l. ok (update_crc32 l)) (sym all))
    ∙ ap (λ l. ok (some l)) all
