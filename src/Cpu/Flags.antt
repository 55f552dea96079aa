-- ===== src/Cpu/Flags.antt =====
-- src/cpu/cpu6502.cpp: the status register, a `std::bitset<8>`, with P() and the flag accessors.
use sys.Base.{ℕ, ◌+◌, Bool, has_bit, if◌then◌else◌}

-- The eight bits of `m_pFlags`; `unused` is bit 5, which no accessor names.
pub record Flags : Type 0 where
  pub c : Bool
  pub z : Bool
  pub i : Bool
  pub d : Bool
  pub b : Bool
  pub unused : Bool
  pub v : Bool
  pub n : Bool

-- `1 << offset` if the bit is set.
abbrev weight : Bool → ℕ → ℕ
weight bit mask = if bit then mask else 0

-- `P()`: `m_pFlags.to_ulong() & 0xff`.
unfoldable pub to_byte : Flags → ℕ
to_byte p =
    weight p.c 0x01
    + weight p.z 0x02
    + weight p.i 0x04
    + weight p.d 0x08
    + weight p.b 0x10
    + weight p.unused 0x20
    + weight p.v 0x40
    + weight p.n 0x80

-- `P(val)`: the bitset made from a byte.
unfoldable pub of_byte : ℕ → Flags
of_byte val = record {
  c = has_bit val 0x01;
  z = has_bit val 0x02;
  i = has_bit val 0x04;
  d = has_bit val 0x08;
  b = has_bit val 0x10;
  unused = has_bit val 0x20;
  v = has_bit val 0x40;
  n = has_bit val 0x80;
}
