-- ===== src/Cpu/Alu.antt =====
-- src/cpu/alu.h and src/cpu/alu.cpp: the combinational ALU.
use sys.Base.{ℕ, ◌+◌, ◌*◌, ◌/◌, bit_and, bit_or, bit_xor, Bool, false, ltb, u8, has_bit}
use sys.Base.{if◌then◌else◌}

pub record AluResult : Type 0 where
  pub value : ℕ
  pub carry : Bool

pub data AluFunction : Type 0 where
  add and or xor shl shr rol ror : AluFunction

-- `carryIn ? bit : 0`.
abbrev pub carry_bit : Bool → ℕ → ℕ
carry_bit c bit = if c then bit else 0

-- `ALU::execute`. The sums and shifts are done in `int`; only the casts to uint8_t cut bits off.
unfoldable pub execute : ℕ → ℕ → AluFunction → Bool → AluResult
execute a b AluFunction.add c =
    let sum : ℕ = a + b + carry_bit c 1 in
    record { value = u8 (bit_and sum 0xFF); carry = ltb 0xFF sum }
execute a b AluFunction.and c = record { value = u8 (bit_and a b); carry = false }
execute a b AluFunction.or c = record { value = u8 (bit_or a b); carry = false }
execute a b AluFunction.xor c = record { value = u8 (bit_xor a b); carry = false }
execute a b AluFunction.shl c = record { value = u8 (b * 2); carry = has_bit b 0x80 }
execute a b AluFunction.shr c = record { value = u8 (b / 2); carry = has_bit b 0x01 }
execute a b AluFunction.rol c = record {
  value = u8 (bit_or (b * 2) (carry_bit c 0x01));
  carry = has_bit b 0x80;
}
execute a b AluFunction.ror c = record {
  value = u8 (bit_or (b / 2) (carry_bit c 0x80));
  carry = has_bit b 0x01;
}
