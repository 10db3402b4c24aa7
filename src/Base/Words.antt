-- ===== src/Base/Words.antt =====
-- `unsigned`, `ULONG` and `UINT` are 32 bits wide, `USHORT` and `WCHAR` 16: arithmetic with the
-- wrap-around written out.
use Prim.Native.Nat.{ℕ, ◌+◌, ◌-◌, ◌*◌, ◌%◌, ◌^◌}

abbrev pub add32 : ℕ → ℕ → ℕ
add32 a b = (a + b) % 2 ^ 32

-- `-` on ℕ stops at 0, so the modulus is added first.
abbrev pub sub32 : ℕ → ℕ → ℕ
sub32 a b = (a + 2 ^ 32 - b) % 2 ^ 32

abbrev pub mul32 : ℕ → ℕ → ℕ
mul32 a b = (a * b) % 2 ^ 32

-- `(USHORT)n`
abbrev pub u16 : ℕ → ℕ
u16 n = n % 2 ^ 16
