-- ===== src/Refinement/Read.antt =====
-- The read instructions in every addressing mode.
use sys.Base.{ℕ, ◌+◌, ◌≡◌, ◌≢◌, refl, ap, ◌∙◌, arith, u16, Bool-cases, inl, inr}
use sys.Base.Bits.{bit_and-0xFF}
use sys.Cpu.Binary.{apply_binary_alu_op, commit_binary_alu_result}
use sys.Cpu.BinarySwitch.{apply_binary_case, commit_binary_case}
use sys.Cpu.Capture.{capture}
use sys.Cpu.Clock.{settle}
use sys.Cpu.Commit.{commit}
use sys.Cpu.Cycle.{finish, fetch, cycle_of}
use sys.Cpu.Handler.{Handler}
use sys.Cpu.State.{Cpu, CpuStep, go_to, next_pc, low, high}
use sys.Isa.Exec.{exec_binary, with_address}
use sys.Isa.Instr.{Mode, BinaryOp}
use sys.Isa.Machine.{Machine, visible, load_byte, fetch_byte}
use sys.Memory.Interface.{BusAccess}
use sys.Refinement.Binary.{apply_of, result_of, apply_step, binary_moving, operand_read}
use sys.Refinement.Finishes.{Finishes, conclude, continue}

-- The capture/commit pair of a mode. No instruction of the family has Zero Page,Y.
abbrev pub read_handler : Mode → Handler
read_handler Mode.immediate = Handler.read_immediate
read_handler Mode.zero_page = Handler.read_zero_page
read_handler Mode.zero_page_x = Handler.read_zero_page_x
read_handler Mode.zero_page_y = Handler.unimplemented
read_handler Mode.absolute = Handler.read_absolute
read_handler Mode.absolute_x = Handler.read_absolute_x
read_handler Mode.absolute_y = Handler.read_absolute_y
read_handler Mode.indirect_x = Handler.read_indirect_x
read_handler Mode.indirect_y = Handler.read_indirect_y

module _ {M : Type 0} ⦃access : BusAccess M⦄ (op : BinaryOp) (s : Cpu M)
    (applies : apply_binary_case (access.read s.bus s.pc).0 ≡ apply_of op)
    (results : commit_binary_case (access.read s.bus s.pc).0 ≡ result_of op) where
  -- Fetch the opcode, find the operand by the mode, and do the operation.
  abbrev pub documented : Mode → Machine M
  documented mode =
      fetch_byte (visible s)
        (λ _ m. with_address mode m (λ addr m'. load_byte addr m' (exec_binary op)))

  read_zero_page : Finishes 6 Handler.read_zero_page (fetch s) (documented Mode.zero_page)
  unfolding finish fetch cycle_of capture commit settle visible with_address
  read_zero_page =
      let h = Handler.read_zero_page in
      let t = cycle_of h (fetch s) in
      operand_read 4 h op t.addr_latch t applies results refl (λ u e p. ground arith)

  read_absolute : Finishes 6 Handler.read_absolute (fetch s) (documented Mode.absolute)
  unfolding finish fetch cycle_of capture commit settle visible with_address
  read_absolute =
      let h = Handler.read_absolute in
      let t = cycle_of h (cycle_of h (fetch s)) in
      operand_read 3 h op t.addr_latch t applies results refl (λ u e p. ground arith)

  read_zero_page_x : Finishes 6 Handler.read_zero_page_x (fetch s) (documented Mode.zero_page_x)
  unfolding finish fetch cycle_of capture commit settle visible with_address
  read_zero_page_x =
      let h = Handler.read_zero_page_x in
      let t = cycle_of h (cycle_of h (fetch s)) in
      rw (← bit_and-0xFF)
        (operand_read 3 h op t.addr_latch t applies results refl (λ u e p. ground arith))

  read_immediate : Finishes 6 Handler.read_immediate (fetch s) (documented Mode.immediate)
  unfolding finish fetch cycle_of capture commit settle visible with_address
  read_immediate =
      let h = Handler.read_immediate in
      let t = fetch s in
      let v = (access.read t.bus t.pc).0 in
      let r = record (settle high t) { bus = (access.read t.bus t.pc).1 } in
      let u = settle low (apply_binary_alu_op v r) in
      conclude 5 h t (commit_binary_alu_result (next_pc u)) (documented Mode.immediate) refl (
        binary_moving op v (u16 (u.pc + 1)) r applies results
        ∙ ap (λ (k : ℕ). exec_binary op v (record (visible r) { pc = u16 (k + 1) }))
            (apply_step v r).2)

  -- An indexed read costs a T-state more when the index leaves the page.
  read_absolute_x : Finishes 6 Handler.read_absolute_x (fetch s) (documented Mode.absolute_x)
  unfolding finish fetch cycle_of capture commit settle visible with_address
  read_absolute_x =
      let h = Handler.read_absolute_x in
      let t = cycle_of h (cycle_of h (fetch s)) in
      elim (Bool-cases t.page_crossed) [
        | inl crossed ↦
            continue 3 h t (go_to CpuStep.t4 (settle low t)) (documented Mode.absolute_x)
              (rw crossed) (λ q. cc)
              (operand_read 2 h op t.eff_addr (go_to CpuStep.t4 (settle low t)) applies results refl
                (λ u e p. ground arith))
        | inr same ↦
            operand_read 3 h op t.eff_addr t applies results (rw same) (λ u e p. ground arith)
      ]

  read_indirect_x : Finishes 6 Handler.read_indirect_x (fetch s) (documented Mode.indirect_x)
  unfolding finish fetch cycle_of capture commit settle visible with_address
  read_indirect_x =
      let h = Handler.read_indirect_x in
      let t = cycle_of h (cycle_of h (cycle_of h (cycle_of h (fetch s)))) in
      simp (← bit_and-0xFF)
        (operand_read 1 h op t.eff_addr t applies results refl (λ u e p. ground arith))

  read_absolute_y : Finishes 6 Handler.read_absolute_y (fetch s) (documented Mode.absolute_y)
  unfolding finish fetch cycle_of capture commit settle visible with_address
  read_absolute_y =
      let h = Handler.read_absolute_y in
      let t = cycle_of h (cycle_of h (fetch s)) in
      elim (Bool-cases t.page_crossed) [
        | inl crossed ↦
            continue 3 h t (go_to CpuStep.t4 (settle low t)) (documented Mode.absolute_y)
              (rw crossed) (λ q. cc)
              (operand_read 2 h op t.eff_addr (go_to CpuStep.t4 (settle low t)) applies results refl
                (λ u e p. ground arith))
        | inr same ↦
            operand_read 3 h op t.eff_addr t applies results (rw same) (λ u e p. ground arith)
      ]

  read_indirect_y : Finishes 6 Handler.read_indirect_y (fetch s) (documented Mode.indirect_y)
  unfolding finish fetch cycle_of capture commit settle visible with_address
  read_indirect_y =
      let h = Handler.read_indirect_y in
      let t = cycle_of h (cycle_of h (cycle_of h (fetch s))) in
      let goal = documented Mode.indirect_y in
      elim (Bool-cases t.page_crossed) [
        | inl crossed ↦
            continue 2 h t (go_to CpuStep.t5 (settle low t)) goal (rw crossed) (λ q. cc)
              (simp (← bit_and-0xFF) (
                operand_read 1 h op t.eff_addr (go_to CpuStep.t5 (settle low t)) applies results
                  refl (λ u e p. ground arith)))
        | inr same ↦
            simp (← bit_and-0xFF)
              (operand_read 2 h op t.eff_addr t applies results (rw same) (λ u e p. ground arith))
      ]

  -- Every mode that the family has.
  pub read_lem :
      (mode : Mode)
      → mode ≢ Mode.zero_page_y
      → Finishes 6 (read_handler mode) (fetch s) (documented mode)
  read_lem Mode.immediate ne = read_immediate
  read_lem Mode.zero_page ne = read_zero_page
  read_lem Mode.zero_page_x ne = read_zero_page_x
  read_lem Mode.zero_page_y ne = absurd (ne refl)
  read_lem Mode.absolute ne = read_absolute
  read_lem Mode.absolute_x ne = read_absolute_x
  read_lem Mode.absolute_y ne = read_absolute_y
  read_lem Mode.indirect_x ne = read_indirect_x
  read_lem Mode.indirect_y ne = read_indirect_y
