-- ===== src/Cpu/Jump.antt =====
-- src/cpu/cpu6502.cpp: branches and jumps, and the reset sequence.
use sys.Base.{ℕ, ◌+◌, Bool, true, false, not, bit_and, bit_or, ◌==◌, if◌then◌else◌, u16, join}
use sys.Cpu.Addressing.{latch_low, latch_high, relative_address, pointer_low}
use sys.Cpu.Opcodes.{bpl, bmi, bvc, bvs, bcc, bcs, bne, beq}
use sys.Cpu.State.{Cpu, CpuStep, go_to, next_pc, dec_sp, set_i, reading}
use sys.Memory.Interface.{BusAccess}

unfoldable pub evaluate_branch_condition : ℕ → Bool → Bool → Bool → Bool → Bool
evaluate_branch_condition opcode c_flag z_flag n_flag v_flag =
    if opcode == bpl
    then not n_flag
    else if opcode == bmi
    then n_flag
    else if opcode == bvc
    then not v_flag
    else if opcode == bvs
    then v_flag
    else if opcode == bcc
    then not c_flag
    else if opcode == bcs
    then c_flag
    else if opcode == bne
    then not z_flag
    else if opcode == beq
    then z_flag
    else false

abbrev pub reset_vector : ℕ
reset_vector = 0xFFFC

module _ {M : Type 0} ⦃access : BusAccess M⦄ where
  unfoldable pub capture_branch : Cpu M → Cpu M
  unfolding relative_address
  capture_branch s = elim s.cpu_step [
    | CpuStep.t1 ↦ reading s.pc s λ v s'. record s' {
      branch_offset = v;
      branch_taken = evaluate_branch_condition s.ir s.p_flags.c s.p_flags.z s.p_flags.n s.p_flags.v;
    }
    | CpuStep.t2 ↦
        let resolved = relative_address s.pc s.branch_offset in
        record s { eff_addr = resolved.address; page_crossed = resolved.page_crossed }
    | _ ↦ s
  ]

  unfoldable pub commit_branch : Cpu M → Cpu M
  commit_branch s = elim s.cpu_step [
    | CpuStep.t1 ↦ go_to (if s.branch_taken then CpuStep.t2 else CpuStep.t0) (next_pc s)
    | CpuStep.t2 ↦
        if s.page_crossed
        then go_to CpuStep.t3 s
        else go_to CpuStep.t0 (record s { pc = s.eff_addr })
    | CpuStep.t3 ↦ go_to CpuStep.t0 (record s { pc = s.eff_addr })
    | _ ↦ s
  ]

  unfoldable pub capture_jmp_absolute : Cpu M → Cpu M
  unfolding latch_low latch_high
  capture_jmp_absolute s = elim s.cpu_step [
    | CpuStep.t1 ↦ latch_low s
    | CpuStep.t2 ↦ latch_high s
    | _ ↦ s
  ]

  unfoldable pub commit_jmp_absolute : Cpu M → Cpu M
  commit_jmp_absolute s = elim s.cpu_step [
    | CpuStep.t1 ↦ go_to CpuStep.t2 (next_pc s)
    | CpuStep.t2 ↦ go_to CpuStep.t0 (record s { pc = s.addr_latch })
    | _ ↦ s
  ]

  -- `high_byte_addr` never carries out of the low byte, as on the real 6502.
  unfoldable pub capture_jmp_indirect : Cpu M → Cpu M
  unfolding latch_low latch_high pointer_low
  capture_jmp_indirect s = elim s.cpu_step [
    | CpuStep.t1 ↦ latch_low s
    | CpuStep.t2 ↦ latch_high s
    | CpuStep.t3 ↦ pointer_low s
    | CpuStep.t4 ↦
        let high_byte_addr : ℕ =
          u16 (bit_or (bit_and s.addr_latch 0xFF00) (bit_and (s.addr_latch + 1) 0x00FF)) in
        reading high_byte_addr s (λ v s'. record s' { eff_addr = join s.eff_addr v })
    | _ ↦ s
  ]

  unfoldable pub commit_jmp_indirect : Cpu M → Cpu M
  commit_jmp_indirect s = elim s.cpu_step [
    | CpuStep.t1 ↦ go_to CpuStep.t2 (next_pc s)
    | CpuStep.t2 ↦ go_to CpuStep.t3 (next_pc s)
    | CpuStep.t3 ↦ go_to CpuStep.t4 s
    | CpuStep.t4 ↦ go_to CpuStep.t0 (record s { pc = s.eff_addr })
    | _ ↦ s
  ]

  unfoldable pub capture_reset : Cpu M → Cpu M
  capture_reset s = elim s.cpu_step [
    | CpuStep.t0 ↦ reading s.pc s (λ v s'. s')
    | CpuStep.t1 ↦ reading s.pc s (λ v s'. s')
    | CpuStep.t2 ↦ s
    | CpuStep.t3 ↦ s
    | CpuStep.t4 ↦ s
    | CpuStep.t5 ↦ reading reset_vector s (λ v s'. record s' { addr_latch = v })
    | CpuStep.t6 ↦
        reading (u16 (reset_vector + 1)) s (λ v s'. record s' { addr_latch = join s.addr_latch v })
  ]

  unfoldable pub commit_reset : Cpu M → Cpu M
  commit_reset s = elim s.cpu_step [
    | CpuStep.t0 ↦ go_to CpuStep.t1 (record s { halted = false })
    | CpuStep.t1 ↦ go_to CpuStep.t2 s
    | CpuStep.t2 ↦ go_to CpuStep.t3 (dec_sp s)
    | CpuStep.t3 ↦ go_to CpuStep.t4 (dec_sp s)
    | CpuStep.t4 ↦ go_to CpuStep.t5 (set_i true (dec_sp s))
    | CpuStep.t5 ↦ go_to CpuStep.t6 s
    | CpuStep.t6 ↦ go_to CpuStep.t0 (record s { pc = s.addr_latch; reset_active = false })
  ]
