-- ===== src/Prelude/Words.antt =====
-- Machine words of 64 bits as native numbers: the wrap-around is written out.
use Prim.Native.Nat.{ℕ, ◌+◌, ◌-◌, ◌%◌, ◌^◌}

abbrev pub word : ℕ
word = 2 ^ 64

-- `a + b` and `a - b` on unsigned long, size_t and phys_addr_t.
abbrev pub add64 : ℕ → ℕ → ℕ
add64 a b = (a + b) % 2 ^ 64

abbrev pub sub64 : ℕ → ℕ → ℕ
sub64 a b = (a + 2 ^ 64 - b) % 2 ^ 64
