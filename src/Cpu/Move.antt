-- ===== src/Cpu/Move.antt =====
-- src/cpu/cpu6502.cpp: the value of a load on its way through the ALU, and the source of a store.
use sys.Base.{ℕ}
use sys.Cpu.Alu.{AluFunction}
use sys.Cpu.Binary.{alu_zero, alu_negative}
use sys.Cpu.MoveSwitch.{RegisterCase, load_case, store_case}
use sys.Cpu.State.{Cpu, set_z, set_n}

module _ {M : Type 0} where
  -- `m_aluA = 0; m_aluB = value; m_aluFunction = OR`.
  unfoldable pub load_through_alu : ℕ → Cpu M → Cpu M
  load_through_alu value s = record s { alu_a = 0; alu_b = value; alu_function = AluFunction.or }

  -- The switch of `commitLoadResult`.
  unfoldable pub load_register : ℕ → Cpu M → Cpu M
  load_register value s = elim (load_case s.ir) [
    | RegisterCase.a ↦ record s { a = value }
    | RegisterCase.x ↦ record s { x = value }
    | RegisterCase.y ↦ record s { y = value }
    | RegisterCase.other ↦ s
  ]

  unfoldable pub commit_load_result : Cpu M → Cpu M
  unfolding load_register alu_zero alu_negative
  commit_load_result s =
      let value : ℕ = s.alu_output.value in
      set_n (alu_negative value) (set_z (alu_zero value) (load_register value s))

  unfoldable pub store_source_value : Cpu M → ℕ
  store_source_value s = elim (store_case s.ir) [
    | RegisterCase.a ↦ s.a
    | RegisterCase.x ↦ s.x
    | RegisterCase.y ↦ s.y
    | RegisterCase.other ↦ 0
  ]
