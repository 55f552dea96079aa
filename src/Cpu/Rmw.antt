-- ===== src/Cpu/Rmw.antt =====
-- src/cpu/cpu6502.cpp: the capture/commit pairs of ASL, LSR, ROL, ROR, INC and DEC.
use sys.Cpu.State.{Cpu, CpuStep, go_to, next_pc, reading, write_bus}
use sys.Memory.Interface.{BusAccess}
use sys.Cpu.Addressing.{latch_low, latch_high, latch_indexed, resolve_indexed_fixed}
use sys.Cpu.Unary.{apply_unary_alu_op, commit_unary_alu_flags}

module _ {M : Type 0} ⦃access : BusAccess M⦄ where
  unfoldable pub capture_shift_accumulator : Cpu M → Cpu M
  capture_shift_accumulator s = apply_unary_alu_op s.a s

  unfoldable pub commit_shift_accumulator : Cpu M → Cpu M
  commit_shift_accumulator s =
      go_to CpuStep.t0 (commit_unary_alu_flags (record s { a = s.alu_output.value }))

  unfoldable pub capture_rmw_zero_page : Cpu M → Cpu M
  unfolding latch_low
  capture_rmw_zero_page s = elim s.cpu_step [
    | CpuStep.t1 ↦ latch_low s
    | CpuStep.t2 ↦ reading s.addr_latch s apply_unary_alu_op
    | CpuStep.t3 ↦ s
    | CpuStep.t4 ↦ s
    | _ ↦ s
  ]

  unfoldable pub commit_rmw_zero_page : Cpu M → Cpu M
  commit_rmw_zero_page s = elim s.cpu_step [
    | CpuStep.t1 ↦ go_to CpuStep.t2 (next_pc s)
    | CpuStep.t2 ↦ go_to CpuStep.t3 s
    | CpuStep.t3 ↦ go_to CpuStep.t4 s
    | CpuStep.t4 ↦
        go_to CpuStep.t0 (commit_unary_alu_flags (write_bus s.addr_latch s.alu_output.value s))
    | _ ↦ s
  ]

  unfoldable pub capture_rmw_zero_page_x : Cpu M → Cpu M
  unfolding latch_low latch_indexed
  capture_rmw_zero_page_x s = elim s.cpu_step [
    | CpuStep.t1 ↦ latch_low s
    | CpuStep.t2 ↦ latch_indexed s.x s
    | CpuStep.t3 ↦ reading s.addr_latch s apply_unary_alu_op
    | CpuStep.t4 ↦ s
    | CpuStep.t5 ↦ s
    | _ ↦ s
  ]

  unfoldable pub commit_rmw_zero_page_x : Cpu M → Cpu M
  commit_rmw_zero_page_x s = elim s.cpu_step [
    | CpuStep.t1 ↦ go_to CpuStep.t2 (next_pc s)
    | CpuStep.t2 ↦ go_to CpuStep.t3 s
    | CpuStep.t3 ↦ go_to CpuStep.t4 s
    | CpuStep.t4 ↦ go_to CpuStep.t5 s
    | CpuStep.t5 ↦
        go_to CpuStep.t0 (commit_unary_alu_flags (write_bus s.addr_latch s.alu_output.value s))
    | _ ↦ s
  ]

  unfoldable pub capture_rmw_absolute : Cpu M → Cpu M
  unfolding latch_low latch_high
  capture_rmw_absolute s = elim s.cpu_step [
    | CpuStep.t1 ↦ latch_low s
    | CpuStep.t2 ↦ latch_high s
    | CpuStep.t3 ↦ reading s.addr_latch s apply_unary_alu_op
    | CpuStep.t4 ↦ s
    | CpuStep.t5 ↦ s
    | _ ↦ s
  ]

  unfoldable pub commit_rmw_absolute : Cpu M → Cpu M
  commit_rmw_absolute s = elim s.cpu_step [
    | CpuStep.t1 ↦ go_to CpuStep.t2 (next_pc s)
    | CpuStep.t2 ↦ go_to CpuStep.t3 (next_pc s)
    | CpuStep.t3 ↦ go_to CpuStep.t4 s
    | CpuStep.t4 ↦ go_to CpuStep.t5 s
    | CpuStep.t5 ↦
        go_to CpuStep.t0 (commit_unary_alu_flags (write_bus s.addr_latch s.alu_output.value s))
    | _ ↦ s
  ]

  unfoldable pub capture_rmw_absolute_x : Cpu M → Cpu M
  unfolding latch_low resolve_indexed_fixed
  capture_rmw_absolute_x s = elim s.cpu_step [
    | CpuStep.t1 ↦ latch_low s
    | CpuStep.t2 ↦ resolve_indexed_fixed s.x s
    | CpuStep.t3 ↦ s
    | CpuStep.t4 ↦ reading s.eff_addr s apply_unary_alu_op
    | CpuStep.t5 ↦ s
    | CpuStep.t6 ↦ s
    | _ ↦ s
  ]

  unfoldable pub commit_rmw_absolute_x : Cpu M → Cpu M
  commit_rmw_absolute_x s = elim s.cpu_step [
    | CpuStep.t1 ↦ go_to CpuStep.t2 (next_pc s)
    | CpuStep.t2 ↦ go_to CpuStep.t3 (next_pc s)
    | CpuStep.t3 ↦ go_to CpuStep.t4 s
    | CpuStep.t4 ↦ go_to CpuStep.t5 s
    | CpuStep.t5 ↦ go_to CpuStep.t6 s
    | CpuStep.t6 ↦
        go_to CpuStep.t0 (commit_unary_alu_flags (write_bus s.eff_addr s.alu_output.value s))
    | _ ↦ s
  ]
