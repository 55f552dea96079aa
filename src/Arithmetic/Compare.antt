-- ===== src/Arithmetic/Compare.antt =====
-- src/cpu/cpu6502.cpp: what `beginBinaryAluOp` and the ALU make of SBC and of the comparisons.
use sys.Base.{ℕ, ◌+◌, ◌-◌, ◌%◌, ◌≡◌, arith, IsByte, leb, ◌==◌, if◌then◌else◌}
use sys.Base.Bits.{bit_and-0xFF, bit_and-0x80}
use sys.Cpu.Alu.{AluResult, execute, carry_bit}
use sys.Cpu.Binary.{alu_zero, alu_negative, begin_binary_alu_op, complement}
use sys.Cpu.Clock.{settle}
use sys.Cpu.State.{Cpu, AluOp, low}

module _ {M : Type 0} where
  -- The output of the ALU once the clock has moved on to the commit.
  abbrev pub output : AluOp → ℕ → ℕ → Cpu M → AluResult
  output op reg operand s = (settle low (begin_binary_alu_op op reg operand s)).alu_output

  -- What SBC takes away besides the operand.
  abbrev pub borrow : Cpu M → ℕ
  borrow s = if s.p_flags.c then 0 else 1

  -- For bytes as register and operand, what `beginBinaryAluOp` latches for SBC makes the ALU
  -- subtract the operand and the borrow modulo 256, with the carry set if and only if nothing is
  -- owed.
  pub output-sbc :
      (reg operand : ℕ) (s : Cpu M)
      → IsByte reg
      → IsByte operand
      → ((output AluOp.sbc reg operand s).value ≡ (reg + 256 - (operand + borrow s)) % 256)
        × ((output AluOp.sbc reg operand s).carry ≡ leb (operand + borrow s) reg)
  unfolding settle begin_binary_alu_op execute
  output-sbc reg operand s p q =
      ground (arith, bit_and-0xFF (reg + complement operand + carry_bit s.p_flags.c 1))

  -- For bytes as register and operand, what `beginBinaryAluOp` latches for a comparison makes the
  -- carry say that the register is at least the operand, Z that they are equal, and N bit 7 of the
  -- difference modulo 256.
  pub output-cmp :
      (reg operand : ℕ) (s : Cpu M)
      → IsByte reg
      → IsByte operand
      → ((output AluOp.cmp reg operand s).carry ≡ leb operand reg)
        × (alu_zero (output AluOp.cmp reg operand s).value ≡ (reg == operand))
        × (alu_negative (output AluOp.cmp reg operand s).value
            ≡ leb 128 ((reg + 256 - operand) % 256))
  unfolding settle begin_binary_alu_op execute alu_zero alu_negative
  output-cmp reg operand s p q =
      let d : ℕ = (reg + complement operand + 1) % 256 in
      let masked = bit_and-0xFF (reg + complement operand + 1) in
      (ground (arith, masked), ground (arith, masked), ground (arith, masked, bit_and-0x80 d))
