-- ===== src/Cpu/Unary.antt =====
-- src/cpu/cpu6502.cpp: the operand latch and the flags of the one-operand instructions.
use sys.Base.{ℕ, false}
use sys.Cpu.Alu.{AluFunction}
use sys.Cpu.Binary.{alu_zero, alu_negative}
use sys.Cpu.State.{Cpu, AluOp, set_c, set_z, set_n}
use sys.Cpu.UnarySwitch.{UnaryCase, UnaryResultCase, apply_unary_case, commit_unary_case}

module _ {M : Type 0} where
  unfoldable pub begin_unary_alu_op : AluOp → ℕ → Cpu M → Cpu M
  begin_unary_alu_op AluOp.asl value s = record s {
    alu_b = value;
    alu_function = AluFunction.shl;
    alu_carry_in = false;
  }
  begin_unary_alu_op AluOp.lsr value s = record s {
    alu_b = value;
    alu_function = AluFunction.shr;
    alu_carry_in = false;
  }
  begin_unary_alu_op AluOp.rol value s = record s {
    alu_b = value;
    alu_function = AluFunction.rol;
    alu_carry_in = s.p_flags.c;
  }
  begin_unary_alu_op AluOp.ror value s = record s {
    alu_b = value;
    alu_function = AluFunction.ror;
    alu_carry_in = s.p_flags.c;
  }
  begin_unary_alu_op AluOp.inc value s = record s {
    alu_b = value;
    alu_function = AluFunction.add;
    alu_a = 0x01;
    alu_carry_in = false;
  }
  begin_unary_alu_op AluOp.dec value s = record s {
    alu_b = value;
    alu_function = AluFunction.add;
    alu_a = 0xFF;
    alu_carry_in = false;
  }
  begin_unary_alu_op _ value s = record s { alu_b = value }

  unfoldable pub apply_unary_alu_op : ℕ → Cpu M → Cpu M
  unfolding begin_unary_alu_op
  apply_unary_alu_op value s = elim (apply_unary_case s.ir) [
    | UnaryCase.asl ↦ begin_unary_alu_op AluOp.asl value s
    | UnaryCase.lsr ↦ begin_unary_alu_op AluOp.lsr value s
    | UnaryCase.rol ↦ begin_unary_alu_op AluOp.rol value s
    | UnaryCase.ror ↦ begin_unary_alu_op AluOp.ror value s
    | UnaryCase.inc ↦ begin_unary_alu_op AluOp.inc value s
    | UnaryCase.dec ↦ begin_unary_alu_op AluOp.dec value s
    | UnaryCase.other ↦ s
  ]

  unfoldable pub commit_unary_alu_flags : Cpu M → Cpu M
  unfolding alu_zero alu_negative
  commit_unary_alu_flags s =
      let d : ℕ = s.alu_output.value in
      elim (commit_unary_case s.ir) [
        | UnaryResultCase.shift ↦
            set_n (alu_negative d) (set_z (alu_zero d) (set_c s.alu_output.carry s))
        | UnaryResultCase.count ↦ set_n (alu_negative d) (set_z (alu_zero d) s)
        | UnaryResultCase.other ↦ s
      ]
