-- ===== src/Cpu/Implied.antt =====
-- src/cpu/cpu6502.cpp: the capture/commit pairs of the two-cycle instructions without an operand.
use sys.Base.{ℕ, true, false, ◌==◌, ◌||◌, if◌then◌else◌}
use sys.Cpu.Alu.{AluFunction}
use sys.Cpu.Binary.{alu_zero, alu_negative}
use sys.Cpu.Opcodes.{
  inx, dex, iny, dey, tax, tay, txa, txs, tya, tsx, clc, sec, cli, sei, clv, cld, sed,
}
use sys.Cpu.State.{Cpu, CpuStep, AluOp, go_to, set_c, set_z, set_i, set_d, set_v, set_n}
use sys.Cpu.Unary.{begin_unary_alu_op}

module _ {M : Type 0} where
  -- ZFlag and NFlag from the ALU's output.
  abbrev set_zn : Cpu M → Cpu M
  set_zn s = set_n (alu_negative s.alu_output.value) (set_z (alu_zero s.alu_output.value) s)

  unfoldable pub capture_implied_inc_dec : Cpu M → Cpu M
  unfolding begin_unary_alu_op
  capture_implied_inc_dec s =
      if s.ir == inx
      then begin_unary_alu_op AluOp.inc s.x s
      else if s.ir == dex
      then begin_unary_alu_op AluOp.dec s.x s
      else if s.ir == iny
      then begin_unary_alu_op AluOp.inc s.y s
      else if s.ir == dey
      then begin_unary_alu_op AluOp.dec s.y s
      else s

  -- The switch of `commitImpliedIncDec`.
  unfoldable pub inc_dec_register : Cpu M → Cpu M
  inc_dec_register s =
      if s.ir == inx || s.ir == dex
      then record s { x = s.alu_output.value }
      else if s.ir == iny || s.ir == dey
      then record s { y = s.alu_output.value }
      else s

  unfoldable pub commit_implied_inc_dec : Cpu M → Cpu M
  unfolding inc_dec_register alu_zero alu_negative
  commit_implied_inc_dec s = go_to CpuStep.t0 (set_zn (inc_dec_register s))

  -- The switch of `captureImpliedTransfer`.
  unfoldable pub transfer_source : Cpu M → ℕ
  transfer_source s =
      if s.ir == tax || s.ir == tay
      then s.a
      else if s.ir == txa || s.ir == txs
      then s.x
      else if s.ir == tya
      then s.y
      else if s.ir == tsx
      then s.sp
      else 0

  unfoldable pub capture_implied_transfer : Cpu M → Cpu M
  unfolding transfer_source
  capture_implied_transfer s = record s {
    alu_a = 0;
    alu_b = transfer_source s;
    alu_function = AluFunction.or;
  }

  -- The switch of `commitImpliedTransfer`.
  unfoldable pub transfer_target : Cpu M → Cpu M
  unfolding alu_zero alu_negative
  transfer_target s =
      if s.ir == tax || s.ir == tsx
      then set_zn (record s { x = s.alu_output.value })
      else if s.ir == tay
      then set_zn (record s { y = s.alu_output.value })
      else if s.ir == txa || s.ir == tya
      then set_zn (record s { a = s.alu_output.value })
      else if s.ir == txs
      then record s { sp = s.alu_output.value }
      else s

  unfoldable pub commit_implied_transfer : Cpu M → Cpu M
  unfolding transfer_target
  commit_implied_transfer s = go_to CpuStep.t0 (transfer_target s)

  unfoldable pub capture_implied_flag_op : Cpu M → Cpu M
  capture_implied_flag_op s = s

  -- The switch of `commitImpliedFlagOp`.
  unfoldable pub write_flag : Cpu M → Cpu M
  write_flag s =
      if s.ir == clc
      then set_c false s
      else if s.ir == sec
      then set_c true s
      else if s.ir == cli
      then set_i false s
      else if s.ir == sei
      then set_i true s
      else if s.ir == clv
      then set_v false s
      else if s.ir == cld
      then set_d false s
      else if s.ir == sed
      then set_d true s
      else s

  unfoldable pub commit_implied_flag_op : Cpu M → Cpu M
  unfolding write_flag
  commit_implied_flag_op s = go_to CpuStep.t0 (write_flag s)

  unfoldable pub capture_nop : Cpu M → Cpu M
  capture_nop s = s

  unfoldable pub commit_nop : Cpu M → Cpu M
  commit_nop s = go_to CpuStep.t0 s
