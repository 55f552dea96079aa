-- ===== src/Arithmetic/Address.antt =====
-- src/cpu/cpu6502.cpp: the effective addresses of the indexed modes and of branches.
use sys.Arithmetic.Sum.{signed_plus_128}
use sys.Base.{ℕ, ◌+◌, ◌-◌, ◌/◌, ◌%◌, ◌≡◌, arith, IsByte, IsWord, not, leb, ◌==◌, u16}
use sys.Base.Bits.{bit_and-0xFF00}
use sys.Cpu.Addressing.{indexed_address, relative_address}

-- For a 16-bit base and a byte as index, the address is their sum modulo 65536, and the page is
-- crossed if and only if the sum carries out of the low byte.
pub indexed_address_lem :
    (base index : ℕ)
    → IsWord base
    → IsByte index
    → ((indexed_address base index).address ≡ (base + index) % 65536)
      × ((indexed_address base index).page_crossed ≡ leb 256 (base % 256 + index))
unfolding indexed_address
indexed_address_lem base index p q =
    ground (arith, bit_and-0xFF00 base p, bit_and-0xFF00 (u16 (base + index)))

-- For a 16-bit base and a byte as offset, the address is the base and the signed offset modulo
-- 65536, and the page is crossed if and only if the high byte changes.
pub relative_address_lem :
    (base offset : ℕ)
    → IsWord base
    → IsByte offset
    → ((relative_address base offset).address
        ≡ (base + signed_plus_128 offset + 65536 - 128) % 65536)
      × ((relative_address base offset).page_crossed
          ≡ not (base / 256 == (relative_address base offset).address / 256))
unfolding relative_address
relative_address_lem base offset p q = ground (
  arith,
  bit_and-0xFF00 base p,
  bit_and-0xFF00 (u16 (base + offset)),
  bit_and-0xFF00 (u16 (base + offset + 65536 - 256)),
)
