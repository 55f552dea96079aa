-- ===== src/Arithmetic/Sum.antt =====
-- src/cpu/alu.cpp and src/cpu/cpu6502.cpp: ADC and SBC in numbers, with the carry and the
-- signed overflow.
use sys.Arithmetic.TopBit.{bit_xor-top, bit_and-top, bit_xor-IsByte}
use sys.Base.{ℕ, ◌+◌, ◌%◌, ◌≡◌, arith, bit_and, bit_xor, IsByte, Bool, not, ltb, leb, ◌&&◌}
use sys.Base.Bits.{bit_and-0xFF, bit_and-0x80}
use sys.Cpu.Alu.{AluFunction, execute, carry_bit}
use sys.Cpu.Binary.{alu_overflow, complement}

-- For two bytes and a carry in, the adder's value and 256 times its carry are the sum.
pub execute-add :
    (a b : ℕ) (c : Bool)
    → IsByte a
    → IsByte b
    → (execute a b AluFunction.add c).value + carry_bit (execute a b AluFunction.add c).carry 256
      ≡ a + b + carry_bit c 1
unfolding execute
execute-add a b c p q = ground (arith, bit_and-0xFF (a + b + carry_bit c 1))

-- The two's complement value of a byte, 128 more.
abbrev pub signed_plus_128 : ℕ → ℕ
signed_plus_128 n = (n + 128) % 256

-- For two bytes, a carry and the low byte of their sum, the overflow flag is set if and only if the
-- sum of the two signed bytes and the carry is outside -128 … 127.
pub alu_overflow_lem :
    (a b : ℕ) (c : Bool)
    → IsByte a
    → IsByte b
    → alu_overflow a b ((a + b + carry_bit c 1) % 256)
      ≡ not (
          leb 128 (signed_plus_128 a + signed_plus_128 b + carry_bit c 1)
          && ltb (signed_plus_128 a + signed_plus_128 b + carry_bit c 1) 384)
unfolding alu_overflow
alu_overflow_lem a b c p q =
    let d : ℕ = (a + b + carry_bit c 1) % 256 in
    let byte : IsByte d = omega arith in
    let x : ℕ = complement (bit_xor a b) in
    let y : ℕ = bit_xor a d in
    ground (
      arith,
      bit_and-0x80 (bit_and x y),
      bit_and-top x y (omega arith) (bit_xor-IsByte a d p byte),
      bit_xor-top a b p q,
      bit_xor-top a d p byte,
      bit_xor-IsByte a b p q,
    )
