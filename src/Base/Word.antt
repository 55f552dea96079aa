-- ===== src/Base/Word.antt =====
-- Bytes and 16-bit words as native numbers: casts wrap by `%`, shifts go by `*` and `/`.
use Prim.Native.Nat.{ℕ, ◌*◌, ◌%◌, ◌<◌, bit_and, bit_or}
use mathlib.Core.Bool.{Bool}
use sys.Base.Tests.{ltb}

abbrev pub u8 : ℕ → ℕ
u8 n = n % 256

abbrev pub u16 : ℕ → ℕ
u16 n = n % 65536

-- `(n & mask) != 0`.
abbrev pub has_bit : ℕ → ℕ → Bool
has_bit n mask = ltb 0 (bit_and n mask)

abbrev pub IsByte : ℕ → Type 0
IsByte n = n < 256

abbrev pub IsWord : ℕ → Type 0
IsWord n = n < 65536

-- `lo | (static_cast<uint16_t>(hi) << 8)`, kept in a uint16_t.
unfoldable pub join : ℕ → ℕ → ℕ
join lo hi = u16 (bit_or lo (hi * 256))
