-- ===== src/Refinement/Binary.antt =====
-- ADC, SBC, AND, ORA, EOR, CMP, CPX, CPY and BIT: the last T-state of each addressing mode.
use sys.Base.{ℕ, suc, ◌+◌, ◌≡◌, ap, ◌∙◌, arith}
use sys.Base.Bits.{bit_and-0xFF}
use sys.Cpu.Alu.{execute, carry_bit}
use sys.Cpu.Binary.{apply_binary_alu_op, commit_binary_alu_result, complement}
use sys.Cpu.BinarySwitch.{BinaryCase, ResultCase, apply_binary_case, commit_binary_case}
use sys.Cpu.Capture.{capture}
use sys.Cpu.Clock.{settle}
use sys.Cpu.Commit.{commit}
use sys.Cpu.Cycle.{cycle_of}
use sys.Cpu.Handler.{Handler}
use sys.Cpu.State.{Cpu, CpuStep, low, high, go_to, reading}
use sys.Isa.Exec.{exec_binary}
use sys.Isa.Instr.{BinaryOp}
use sys.Isa.Machine.{visible, load_byte}
use sys.Memory.Interface.{BusAccess}
use sys.Refinement.Finishes.{Finishes, conclude}

abbrev pub apply_of : BinaryOp → BinaryCase
apply_of BinaryOp.adc = BinaryCase.adc
apply_of BinaryOp.sbc = BinaryCase.sbc
apply_of BinaryOp.and = BinaryCase.and
apply_of BinaryOp.ora = BinaryCase.ora
apply_of BinaryOp.eor = BinaryCase.eor
apply_of BinaryOp.cmp = BinaryCase.cmp
apply_of BinaryOp.cpx = BinaryCase.cpx
apply_of BinaryOp.cpy = BinaryCase.cpy
apply_of BinaryOp.bit = BinaryCase.bit

abbrev pub result_of : BinaryOp → ResultCase
result_of BinaryOp.adc = ResultCase.arithmetic
result_of BinaryOp.sbc = ResultCase.arithmetic
result_of BinaryOp.and = ResultCase.logical
result_of BinaryOp.ora = ResultCase.logical
result_of BinaryOp.eor = ResultCase.logical
result_of BinaryOp.cmp = ResultCase.compare
result_of BinaryOp.cpx = ResultCase.compare
result_of BinaryOp.cpy = ResultCase.compare
result_of BinaryOp.bit = ResultCase.bit

module _ {M : Type 0} where
  -- Loading the ALU's latches moves neither the clock nor the addresses.
  pub apply_step :
      (v : ℕ) (s : Cpu M)
      → ((apply_binary_alu_op v s).cpu_step ≡ s.cpu_step)
        × ((apply_binary_alu_op v s).page_crossed ≡ s.page_crossed)
        × ((apply_binary_alu_op v s).pc ≡ s.pc)
  unfolding apply_binary_alu_op
  apply_step v s = ground arith

  -- Latching, settling and committing is the documented operation; PC may move meanwhile.
  pub binary_moving :
      (op : BinaryOp) (v k : ℕ) (s : Cpu M)
      → apply_binary_case s.ir ≡ apply_of op
      → commit_binary_case s.ir ≡ result_of op
      → visible
          (commit_binary_alu_result (record (settle low (apply_binary_alu_op v s)) { pc = k }))
        ≡ exec_binary op v (record (visible s) { pc = k })
  unfolding apply_binary_alu_op commit_binary_alu_result settle execute exec_binary visible
  binary_moving BinaryOp.adc v k s e₁ e₂ =
      ground (arith, bit_and-0xFF (s.a + v + carry_bit s.p_flags.c 1))
  binary_moving BinaryOp.sbc v k s e₁ e₂ =
      ground (arith, bit_and-0xFF (s.a + complement v + carry_bit s.p_flags.c 1))
  binary_moving BinaryOp.cmp v k s e₁ e₂ = ground (arith, bit_and-0xFF (s.a + complement v + 1))
  binary_moving BinaryOp.cpx v k s e₁ e₂ = ground (arith, bit_and-0xFF (s.x + complement v + 1))
  binary_moving BinaryOp.cpy v k s e₁ e₂ = ground (arith, bit_and-0xFF (s.y + complement v + 1))
  binary_moving _ v k s e₁ e₂ = ground arith

  pub binary_in_place :
      (op : BinaryOp) (v : ℕ) (s : Cpu M)
      → apply_binary_case s.ir ≡ apply_of op
      → commit_binary_case s.ir ≡ result_of op
      → visible (commit_binary_alu_result (settle low (apply_binary_alu_op v s)))
        ≡ exec_binary op v (visible s)
  unfolding settle visible
  binary_in_place op v s e₁ e₂ =
      binary_moving op v (apply_binary_alu_op v s).pc s e₁ e₂
      ∙ ap (λ (k : ℕ). exec_binary op v (record (visible s) { pc = k })) (apply_step v s).2

module _ {M : Type 0} ⦃access : BusAccess M⦄ where
  -- The T-state that reads the operand ends the instruction.
  pub operand_read :
      (n : ℕ) (h : Handler) (op : BinaryOp) (addr : ℕ) (t : Cpu M)
      → apply_binary_case t.ir ≡ apply_of op
      → commit_binary_case t.ir ≡ result_of op
      → capture h (settle high t) ≡ reading addr (settle high t) apply_binary_alu_op
      → ((u : Cpu M)
          → u.cpu_step ≡ t.cpu_step
          → u.page_crossed ≡ t.page_crossed
          → commit h u ≡ go_to CpuStep.t0 (commit_binary_alu_result u))
      → Finishes (suc n) h t (load_byte addr (visible t) (exec_binary op))
  unfolding cycle_of settle visible
  operand_read n h op addr t e₁ e₂ captures commits =
      let v = (access.read t.bus addr).0 in
      let s = record (settle high t) { bus = (access.read t.bus addr).1 } in
      let u = settle low (apply_binary_alu_op v s) in
      let (step, crossed, _) = apply_step v s in
      conclude n h t (commit_binary_alu_result u) (load_byte addr (visible t) (exec_binary op))
        (ap (λ (w : Cpu M). commit h (settle low w)) captures ∙ commits u step crossed)
        (binary_in_place op v s e₁ e₂)
