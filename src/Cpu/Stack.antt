-- ===== src/Cpu/Stack.antt =====
-- src/cpu/cpu6502.cpp: the capture/commit pairs of the instructions on the stack.
use sys.Base.{ℕ, ◌+◌, ◌/◌, true, bit_and, ◌==◌, if◌then◌else◌, u8, u16, join}
use sys.Cpu.Addressing.{latch_low}
use sys.Cpu.Binary.{alu_zero, alu_negative}
use sys.Cpu.Flags.{to_byte, of_byte}
use sys.Cpu.Opcodes.{php, pla}
use sys.Cpu.State.{
  Cpu, CpuStep, go_to, next_pc, inc_sp, dec_sp, set_z, set_i, set_b, set_n, set_p, p, reading,
  write_bus,
}
use sys.Memory.Interface.{BusAccess}

abbrev pub brk_vector : ℕ
brk_vector = 0xFFFE

-- `static_cast<uint16_t>(0x0100 + m_SP)`.
abbrev pub stack_address : ℕ → ℕ
stack_address sp = u16 (0x0100 + sp)

module _ {M : Type 0} ⦃access : BusAccess M⦄ where
  -- `m_bus.write(0x0100 + m_SP, val); m_SP--`.
  unfoldable pub push : ℕ → Cpu M → Cpu M
  push val s = dec_sp (write_bus (stack_address s.sp) val s)

  -- The pushes of PCH and PCL that BRK and JSR make in turn.
  abbrev push_pc_high : Cpu M → Cpu M
  push_pc_high s = push (u8 (s.pc / 256)) s

  abbrev push_pc_low : Cpu M → Cpu M
  push_pc_low s = push (u8 (bit_and s.pc 0xFF)) s

  -- A read whose value is discarded.
  abbrev dummy_read : Cpu M → Cpu M
  dummy_read s = reading s.pc s (λ v s'. s')

  unfoldable pub capture_brk : Cpu M → Cpu M
  capture_brk s = elim s.cpu_step [
    | CpuStep.t1 ↦ dummy_read s
    | CpuStep.t2 ↦ s
    | CpuStep.t3 ↦ s
    | CpuStep.t4 ↦ s
    | CpuStep.t5 ↦ reading brk_vector s (λ v s'. record s' { addr_latch = v })
    | CpuStep.t6 ↦
        reading (u16 (brk_vector + 1)) s (λ v s'. record s' { addr_latch = join s.addr_latch v })
    | _ ↦ s
  ]

  unfoldable pub commit_brk : Cpu M → Cpu M
  unfolding push to_byte
  commit_brk s = elim s.cpu_step [
    | CpuStep.t1 ↦ go_to CpuStep.t2 (next_pc s)
    | CpuStep.t2 ↦ go_to CpuStep.t3 (push_pc_high s)
    | CpuStep.t3 ↦ go_to CpuStep.t4 (push_pc_low s)
    | CpuStep.t4 ↦ let s' = set_b true s in go_to CpuStep.t5 (set_i true (push (p s') s'))
    | CpuStep.t5 ↦ go_to CpuStep.t6 s
    | CpuStep.t6 ↦ go_to CpuStep.t0 (record s { pc = s.addr_latch; halted = true })
    | _ ↦ s
  ]

  unfoldable pub capture_jsr : Cpu M → Cpu M
  unfolding latch_low
  capture_jsr s = elim s.cpu_step [
    | CpuStep.t1 ↦ latch_low s
    | CpuStep.t5 ↦
        reading s.pc s (λ v s'. record s' { addr_latch = join (bit_and s.addr_latch 0x00FF) v })
    | _ ↦ s
  ]

  unfoldable pub commit_jsr : Cpu M → Cpu M
  unfolding push
  commit_jsr s = elim s.cpu_step [
    | CpuStep.t1 ↦ go_to CpuStep.t2 (next_pc s)
    | CpuStep.t2 ↦ go_to CpuStep.t3 s
    | CpuStep.t3 ↦ go_to CpuStep.t4 (push_pc_high s)
    | CpuStep.t4 ↦ go_to CpuStep.t5 (push_pc_low s)
    | CpuStep.t5 ↦ go_to CpuStep.t0 (record s { pc = s.addr_latch })
    | _ ↦ s
  ]

  unfoldable pub capture_rts : Cpu M → Cpu M
  capture_rts s = elim s.cpu_step [
    | CpuStep.t3 ↦ reading (stack_address s.sp) s (λ v s'. record s' { addr_latch = v })
    | CpuStep.t4 ↦
        reading (stack_address s.sp) s
          (λ v s'. record s' { addr_latch = join (bit_and s.addr_latch 0x00FF) v })
    | _ ↦ s
  ]

  unfoldable pub commit_rts : Cpu M → Cpu M
  commit_rts s = elim s.cpu_step [
    | CpuStep.t1 ↦ go_to CpuStep.t2 s
    | CpuStep.t2 ↦ go_to CpuStep.t3 (inc_sp s)
    | CpuStep.t3 ↦ go_to CpuStep.t4 (inc_sp s)
    | CpuStep.t4 ↦ go_to CpuStep.t5 s
    | CpuStep.t5 ↦ go_to CpuStep.t0 (record s { pc = u16 (s.addr_latch + 1) })
    | _ ↦ s
  ]

  unfoldable pub capture_rti : Cpu M → Cpu M
  capture_rti s = elim s.cpu_step [ CpuStep.t1 ↦ dummy_read s | _ ↦ s ]

  unfoldable pub commit_rti : Cpu M → Cpu M
  unfolding of_byte
  commit_rti s = elim s.cpu_step [
    | CpuStep.t1 ↦ go_to CpuStep.t2 s
    | CpuStep.t2 ↦ go_to CpuStep.t3 (inc_sp s)
    | CpuStep.t3 ↦ reading (stack_address s.sp) s (λ v s'. go_to CpuStep.t4 (inc_sp (set_p v s')))
    | CpuStep.t4 ↦
        reading (stack_address s.sp) s
          (λ v s'. go_to CpuStep.t5 (inc_sp (record s' { addr_latch = v })))
    | CpuStep.t5 ↦ reading (stack_address s.sp) s λ v s'.
        let target : ℕ = join s.addr_latch v in
        go_to CpuStep.t0 (record s' { addr_latch = target; pc = target })
    | _ ↦ s
  ]

  unfoldable pub capture_implied_push : Cpu M → Cpu M
  capture_implied_push s = elim s.cpu_step [ CpuStep.t1 ↦ dummy_read s | _ ↦ s ]

  unfoldable pub commit_implied_push : Cpu M → Cpu M
  unfolding push to_byte
  commit_implied_push s = elim s.cpu_step [
    | CpuStep.t1 ↦ go_to CpuStep.t2 s
    | CpuStep.t2 ↦
        go_to CpuStep.t0
          (if s.ir == php then (let s' = set_b true s in push (p s') s') else push s.a s)
    | _ ↦ s
  ]

  unfoldable pub capture_implied_pull : Cpu M → Cpu M
  capture_implied_pull s = elim s.cpu_step [
    | CpuStep.t1 ↦ dummy_read s
    | CpuStep.t2 ↦ s
    | CpuStep.t3 ↦ reading (stack_address s.sp) s (λ v s'. record s' { addr_latch = v })
    | _ ↦ s
  ]

  unfoldable pub commit_implied_pull : Cpu M → Cpu M
  unfolding alu_zero alu_negative of_byte
  commit_implied_pull s = elim s.cpu_step [
    | CpuStep.t1 ↦ go_to CpuStep.t2 s
    | CpuStep.t2 ↦ go_to CpuStep.t3 (inc_sp s)
    | CpuStep.t3 ↦
        let pulled : ℕ = u8 s.addr_latch in
        go_to CpuStep.t0 (
          if s.ir == pla
          then set_n (alu_negative pulled) (set_z (alu_zero pulled) (record s { a = pulled }))
          else set_p pulled s)
    | _ ↦ s
  ]
