-- ===== src/Cpu/Binary.antt =====
-- src/cpu/cpu6502.cpp: the operand latches and the results of the two-operand instructions.
use sys.Base.{ℕ, ◌-◌, Bool, true, bit_and, bit_xor, ◌==◌, has_bit}
use sys.Cpu.Alu.{AluFunction}
use sys.Cpu.BinarySwitch.{BinaryCase, ResultCase, apply_binary_case, commit_binary_case}
use sys.Cpu.State.{Cpu, AluOp, set_c, set_z, set_v, set_n}

unfoldable pub alu_zero : ℕ → Bool
alu_zero d = d == 0

unfoldable pub alu_negative : ℕ → Bool
alu_negative d = has_bit d 0x80

-- `~` on the `int` of a byte, as far as the byte that is kept or masked afterwards goes.
abbrev pub complement : ℕ → ℕ
complement n = 255 - n

unfoldable pub alu_overflow : ℕ → ℕ → ℕ → Bool
alu_overflow a b d = has_bit (bit_and (complement (bit_xor a b)) (bit_xor a d)) 0x80

module _ {M : Type 0} where
  -- The shared first assignments of `beginBinaryAluOp`.
  abbrev latch_operands : ℕ → ℕ → Cpu M → Cpu M
  latch_operands reg_value operand s = record s {
    alu_a = reg_value;
    alu_b = operand;
    alu_carry_in = s.p_flags.c;
  }

  unfoldable pub begin_binary_alu_op : AluOp → ℕ → ℕ → Cpu M → Cpu M
  begin_binary_alu_op AluOp.adc reg_value operand s = record (latch_operands reg_value operand s) {
    alu_function = AluFunction.add;
  }
  begin_binary_alu_op AluOp.sbc reg_value operand s = record (latch_operands reg_value operand s) {
    alu_function = AluFunction.add;
    alu_b = complement operand;
  }
  begin_binary_alu_op AluOp.and reg_value operand s = record (latch_operands reg_value operand s) {
    alu_function = AluFunction.and;
  }
  begin_binary_alu_op AluOp.ora reg_value operand s = record (latch_operands reg_value operand s) {
    alu_function = AluFunction.or;
  }
  begin_binary_alu_op AluOp.eor reg_value operand s = record (latch_operands reg_value operand s) {
    alu_function = AluFunction.xor;
  }
  begin_binary_alu_op AluOp.cmp reg_value operand s = record (latch_operands reg_value operand s) {
    alu_function = AluFunction.add;
    alu_b = complement operand;
    alu_carry_in = true;
  }
  begin_binary_alu_op AluOp.bit reg_value operand s = record (latch_operands reg_value operand s) {
    alu_function = AluFunction.and;
  }
  begin_binary_alu_op _ reg_value operand s = latch_operands reg_value operand s

  unfoldable pub apply_binary_alu_op : ℕ → Cpu M → Cpu M
  unfolding begin_binary_alu_op
  apply_binary_alu_op operand s = elim (apply_binary_case s.ir) [
    | BinaryCase.adc ↦ begin_binary_alu_op AluOp.adc s.a operand s
    | BinaryCase.sbc ↦ begin_binary_alu_op AluOp.sbc s.a operand s
    | BinaryCase.and ↦ begin_binary_alu_op AluOp.and s.a operand s
    | BinaryCase.ora ↦ begin_binary_alu_op AluOp.ora s.a operand s
    | BinaryCase.eor ↦ begin_binary_alu_op AluOp.eor s.a operand s
    | BinaryCase.cmp ↦ begin_binary_alu_op AluOp.cmp s.a operand s
    | BinaryCase.cpx ↦ begin_binary_alu_op AluOp.cmp s.x operand s
    | BinaryCase.cpy ↦ begin_binary_alu_op AluOp.cmp s.y operand s
    | BinaryCase.bit ↦ begin_binary_alu_op AluOp.bit s.a operand s
    | BinaryCase.other ↦ s
  ]

  unfoldable pub commit_binary_alu_result : Cpu M → Cpu M
  unfolding alu_zero alu_negative alu_overflow
  commit_binary_alu_result s =
      let d : ℕ = s.alu_output.value in
      elim (commit_binary_case s.ir) [
        | ResultCase.arithmetic ↦ set_n (alu_negative d) (
            set_v (alu_overflow s.alu_a s.alu_b d)
              (set_z (alu_zero d) (set_c s.alu_output.carry (record s { a = d }))))
        | ResultCase.logical ↦ set_n (alu_negative d) (set_z (alu_zero d) (record s { a = d }))
        | ResultCase.compare ↦
            set_n (alu_negative d) (set_z (alu_zero d) (set_c s.alu_output.carry s))
        | ResultCase.bit ↦
            set_v (has_bit s.alu_b 0x40) (set_n (has_bit s.alu_b 0x80) (set_z (alu_zero d) s))
        | ResultCase.other ↦ s
      ]
