-- ===== src/Cpu/Clock.antt =====
-- src/cpu/cpu6502.cpp: the opcode fetch, the two clock edges that do work, `tick`, and the loops
-- that pump it.
use sys.Base.{ℕ, zero, suc, Bool, true, false, Option, none, some, if◌then◌else◌}
use sys.Cpu.Alu.{execute}
use sys.Cpu.Capture.{capture}
use sys.Cpu.CaptureSwitch.{capture_case}
use sys.Cpu.Commit.{commit}
use sys.Cpu.CommitSwitch.{commit_case}
use sys.Cpu.Jump.{capture_reset, commit_reset}
use sys.Cpu.State.{
  Cpu, CpuStep, ClockPhase, low, low_to_high, high, high_to_low, go_to, next_pc, reading,
}
use sys.Memory.Interface.{BusAccess}

unfoldable pub next_clock_phase : ClockPhase → ClockPhase
next_clock_phase low = low_to_high
next_clock_phase low_to_high = high
next_clock_phase high = high_to_low
next_clock_phase high_to_low = low

module _ {M : Type 0} where
  -- `m_aluOutput = m_alu.execute(…)`, and the next phase of the clock.
  unfoldable pub settle : ClockPhase → Cpu M → Cpu M
  settle phase s = record s {
    alu_output = execute s.alu_a s.alu_b s.alu_function s.alu_carry_in;
    clock_phase = phase;
  }

  -- `m_cpuStep == T0 && m_clockPhase == Low`, where the do-while loops end.
  unfoldable pub at_boundary : Cpu M → Bool
  at_boundary s = elim s.cpu_step [
    | CpuStep.t0 ↦ elim s.clock_phase [ low ↦ true | _ ↦ false ]
    | _ ↦ false
  ]

  unfoldable pub begin_reset : Cpu M → Cpu M
  begin_reset s = record s { reset_active = true; cpu_step = CpuStep.t0 }

module _ {M : Type 0} ⦃access : BusAccess M⦄ where
  unfoldable pub capture_opcode_fetch : Cpu M → Cpu M
  capture_opcode_fetch s = reading s.pc s (λ v s'. record s' { ir = v })

  -- The trace line is output only, and is not modelled.
  unfoldable pub commit_opcode_fetch : Cpu M → Cpu M
  commit_opcode_fetch s = go_to CpuStep.t1 (next_pc s)

  unfoldable pub on_clock_high : Cpu M → Cpu M
  unfolding capture_opcode_fetch
  on_clock_high s = if s.reset_active then capture_reset s else elim s.cpu_step [
    | CpuStep.t0 ↦ capture_opcode_fetch s
    | _ ↦ capture (capture_case s.ir) s
  ]

  unfoldable pub on_clock_low : Cpu M → Cpu M
  unfolding commit_opcode_fetch
  on_clock_low s =
      if s.reset_active
      then commit_reset s
      else elim s.cpu_step [ CpuStep.t0 ↦ commit_opcode_fetch s | _ ↦ commit (commit_case s.ir) s ]

  -- The switch of `tick` on the phase just entered.
  unfoldable pub clock_edge : ClockPhase → Cpu M → Cpu M
  clock_edge high s = on_clock_high s
  clock_edge low s = on_clock_low s
  clock_edge _ s = s

  unfoldable pub tick : Cpu M → Cpu M
  unfolding next_clock_phase settle clock_edge
  tick s = let phase = next_clock_phase s.clock_phase in clock_edge phase (settle phase s)

  -- `do { tick(); } while (m_cpuStep != T0 || m_clockPhase != Low)`, `none` when the fuel is out.
  unfoldable pub tick_to_boundary : ℕ → Cpu M → Option (Cpu M)
  unfolding at_boundary
  tick_to_boundary zero s = none
  tick_to_boundary (suc fuel) s =
      let s' = tick s in
      let rest = tick_to_boundary fuel s' in if at_boundary s' then some s' else rest

  -- Seven T-states of four ticks are enough for every instruction and for the reset sequence.
  unfoldable pub execute_instruction : Cpu M → Option (Cpu M)
  execute_instruction s = tick_to_boundary 28 s

  unfoldable pub reset : Cpu M → Option (Cpu M)
  unfolding begin_reset
  reset s = tick_to_boundary 28 (begin_reset s)

  -- `do { tick(); } while (m_clockPhase != High)`: four ticks pass every phase.
  unfoldable pub tick_to_high : ℕ → Cpu M → Option (Cpu M)
  tick_to_high zero s = none
  tick_to_high (suc fuel) s =
      let s' = tick s in
      let rest = tick_to_high fuel s' in elim s'.clock_phase [ high ↦ some s' | _ ↦ rest ]

  unfoldable pub run_to_clock_high : Cpu M → Option (Cpu M)
  run_to_clock_high s = tick_to_high 4 s

  -- `run(maxInstructions)`, with the rounds left: the flag that it returns, and the CPU.
  unfoldable pub run : ℕ → Cpu M → Option (Bool × Cpu M)
  run zero s = some (s.halted, s)
  run (suc left) s = elim s.halted [
    | true ↦ some (s.halted, s)
    | false ↦ elim (execute_instruction s) [ none ↦ none | some s' ↦ run left s' ]
  ]
