-- ===== src/Cpu/Read.antt =====
-- src/cpu/cpu6502.cpp: the capture/commit pairs of ADC, SBC, AND, ORA, EOR, CMP, CPX, CPY and BIT.
use sys.Base.{not, if◌then◌else◌}
use sys.Cpu.State.{Cpu, CpuStep, go_to, next_pc, reading}
use sys.Memory.Interface.{BusAccess}
use sys.Cpu.Addressing.{
  latch_low, latch_high, latch_indexed, resolve_indexed, pointer_low, pointer_high, resolve_pointer,
}
use sys.Cpu.Binary.{apply_binary_alu_op, commit_binary_alu_result}

module _ {M : Type 0} ⦃access : BusAccess M⦄ where
  unfoldable pub capture_read_immediate : Cpu M → Cpu M
  capture_read_immediate s = reading s.pc s apply_binary_alu_op

  unfoldable pub commit_read_immediate : Cpu M → Cpu M
  commit_read_immediate s = go_to CpuStep.t0 (commit_binary_alu_result (next_pc s))

  unfoldable pub capture_read_zero_page : Cpu M → Cpu M
  unfolding latch_low
  capture_read_zero_page s = elim s.cpu_step [
    | CpuStep.t1 ↦ latch_low s
    | CpuStep.t2 ↦ reading s.addr_latch s apply_binary_alu_op
    | _ ↦ s
  ]

  unfoldable pub commit_read_zero_page : Cpu M → Cpu M
  commit_read_zero_page s = elim s.cpu_step [
    | CpuStep.t1 ↦ go_to CpuStep.t2 (next_pc s)
    | CpuStep.t2 ↦ go_to CpuStep.t0 (commit_binary_alu_result s)
    | _ ↦ s
  ]

  unfoldable pub capture_read_zero_page_x : Cpu M → Cpu M
  unfolding latch_low latch_indexed
  capture_read_zero_page_x s = elim s.cpu_step [
    | CpuStep.t1 ↦ latch_low s
    | CpuStep.t2 ↦ latch_indexed s.x s
    | CpuStep.t3 ↦ reading s.addr_latch s apply_binary_alu_op
    | _ ↦ s
  ]

  unfoldable pub commit_read_zero_page_x : Cpu M → Cpu M
  commit_read_zero_page_x s = elim s.cpu_step [
    | CpuStep.t1 ↦ go_to CpuStep.t2 (next_pc s)
    | CpuStep.t2 ↦ go_to CpuStep.t3 s
    | CpuStep.t3 ↦ go_to CpuStep.t0 (commit_binary_alu_result s)
    | _ ↦ s
  ]

  unfoldable pub capture_read_absolute : Cpu M → Cpu M
  unfolding latch_low latch_high
  capture_read_absolute s = elim s.cpu_step [
    | CpuStep.t1 ↦ latch_low s
    | CpuStep.t2 ↦ latch_high s
    | CpuStep.t3 ↦ reading s.addr_latch s apply_binary_alu_op
    | _ ↦ s
  ]

  unfoldable pub commit_read_absolute : Cpu M → Cpu M
  commit_read_absolute s = elim s.cpu_step [
    | CpuStep.t1 ↦ go_to CpuStep.t2 (next_pc s)
    | CpuStep.t2 ↦ go_to CpuStep.t3 (next_pc s)
    | CpuStep.t3 ↦ go_to CpuStep.t0 (commit_binary_alu_result s)
    | _ ↦ s
  ]

  unfoldable pub capture_read_absolute_x : Cpu M → Cpu M
  unfolding latch_low resolve_indexed
  capture_read_absolute_x s = elim s.cpu_step [
    | CpuStep.t1 ↦ latch_low s
    | CpuStep.t2 ↦ resolve_indexed s.x s
    | CpuStep.t3 ↦ if not s.page_crossed then reading s.eff_addr s apply_binary_alu_op else s
    | CpuStep.t4 ↦ reading s.eff_addr s apply_binary_alu_op
    | _ ↦ s
  ]

  unfoldable pub commit_read_absolute_x : Cpu M → Cpu M
  commit_read_absolute_x s = elim s.cpu_step [
    | CpuStep.t1 ↦ go_to CpuStep.t2 (next_pc s)
    | CpuStep.t2 ↦ go_to CpuStep.t3 (next_pc s)
    | CpuStep.t3 ↦
        if s.page_crossed then go_to CpuStep.t4 s else go_to CpuStep.t0 (commit_binary_alu_result s)
    | CpuStep.t4 ↦ go_to CpuStep.t0 (commit_binary_alu_result s)
    | _ ↦ s
  ]

  unfoldable pub capture_read_absolute_y : Cpu M → Cpu M
  unfolding latch_low resolve_indexed
  capture_read_absolute_y s = elim s.cpu_step [
    | CpuStep.t1 ↦ latch_low s
    | CpuStep.t2 ↦ resolve_indexed s.y s
    | CpuStep.t3 ↦ if not s.page_crossed then reading s.eff_addr s apply_binary_alu_op else s
    | CpuStep.t4 ↦ reading s.eff_addr s apply_binary_alu_op
    | _ ↦ s
  ]

  unfoldable pub commit_read_absolute_y : Cpu M → Cpu M
  commit_read_absolute_y s = elim s.cpu_step [
    | CpuStep.t1 ↦ go_to CpuStep.t2 (next_pc s)
    | CpuStep.t2 ↦ go_to CpuStep.t3 (next_pc s)
    | CpuStep.t3 ↦
        if s.page_crossed then go_to CpuStep.t4 s else go_to CpuStep.t0 (commit_binary_alu_result s)
    | CpuStep.t4 ↦ go_to CpuStep.t0 (commit_binary_alu_result s)
    | _ ↦ s
  ]

  unfoldable pub capture_read_indirect_x : Cpu M → Cpu M
  unfolding latch_low latch_indexed pointer_low pointer_high
  capture_read_indirect_x s = elim s.cpu_step [
    | CpuStep.t1 ↦ latch_low s
    | CpuStep.t2 ↦ latch_indexed s.x s
    | CpuStep.t3 ↦ pointer_low s
    | CpuStep.t4 ↦ pointer_high s
    | CpuStep.t5 ↦ reading s.eff_addr s apply_binary_alu_op
    | _ ↦ s
  ]

  unfoldable pub commit_read_indirect_x : Cpu M → Cpu M
  commit_read_indirect_x s = elim s.cpu_step [
    | CpuStep.t1 ↦ go_to CpuStep.t2 (next_pc s)
    | CpuStep.t2 ↦ go_to CpuStep.t3 s
    | CpuStep.t3 ↦ go_to CpuStep.t4 s
    | CpuStep.t4 ↦ go_to CpuStep.t5 s
    | CpuStep.t5 ↦ go_to CpuStep.t0 (commit_binary_alu_result s)
    | _ ↦ s
  ]

  unfoldable pub capture_read_indirect_y : Cpu M → Cpu M
  unfolding latch_low pointer_low resolve_pointer
  capture_read_indirect_y s = elim s.cpu_step [
    | CpuStep.t1 ↦ latch_low s
    | CpuStep.t2 ↦ pointer_low s
    | CpuStep.t3 ↦ resolve_pointer s.y s
    | CpuStep.t4 ↦ if not s.page_crossed then reading s.eff_addr s apply_binary_alu_op else s
    | CpuStep.t5 ↦ reading s.eff_addr s apply_binary_alu_op
    | _ ↦ s
  ]

  unfoldable pub commit_read_indirect_y : Cpu M → Cpu M
  commit_read_indirect_y s = elim s.cpu_step [
    | CpuStep.t1 ↦ go_to CpuStep.t2 (next_pc s)
    | CpuStep.t2 ↦ go_to CpuStep.t3 s
    | CpuStep.t3 ↦ go_to CpuStep.t4 s
    | CpuStep.t4 ↦
        if s.page_crossed then go_to CpuStep.t5 s else go_to CpuStep.t0 (commit_binary_alu_result s)
    | CpuStep.t5 ↦ go_to CpuStep.t0 (commit_binary_alu_result s)
    | _ ↦ s
  ]
