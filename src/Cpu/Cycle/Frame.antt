-- ===== src/Cpu/Cycle/Frame.antt =====
-- No capture or commit handler touches the clock phase, the reset latch or the opcode.
use sys.Base.{◌≡◌, arith}
use sys.Cpu.Binary.{apply_binary_alu_op, commit_binary_alu_result}
use sys.Cpu.Unary.{apply_unary_alu_op, commit_unary_alu_flags}
use sys.Cpu.Move.{commit_load_result}
use sys.Cpu.Capture.{capture}
use sys.Cpu.Commit.{commit}
use sys.Cpu.Handler.{Handler}
use sys.Cpu.State.{Cpu}
use sys.Memory.Interface.{BusAccess}

module _ {M : Type 0} ⦃access : BusAccess M⦄ where
  pub record Kept (s t : Cpu M) : Type 0 where
    pub phase : t.clock_phase ≡ s.clock_phase
    pub resetting : t.reset_active ≡ s.reset_active
    pub opcode : t.ir ≡ s.ir

  pub capture-Kept : (h : Handler) (s : Cpu M) → Kept s (capture h s)
  unfolding capture apply_binary_alu_op apply_unary_alu_op
  capture-Kept Handler.nop s = ground arith
  capture-Kept _ s = ground arith

  pub commit-Kept : (h : Handler) (s : Cpu M) → Kept s (commit h s)
  unfolding commit commit_binary_alu_result commit_unary_alu_flags commit_load_result
  commit-Kept Handler.nop s = ground arith
  commit-Kept _ s = ground arith

  -- A capture never moves to another T-state.
  pub capture_step : (h : Handler) (s : Cpu M) → (capture h s).cpu_step ≡ s.cpu_step
  unfolding capture apply_binary_alu_op apply_unary_alu_op
  capture_step Handler.nop s = ground arith
  capture_step _ s = ground arith
