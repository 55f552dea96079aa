-- ===== src/Refinement/Load.antt =====
-- LDA, LDX and LDY.
use sys.Base.{ℕ, suc, ◌≡◌, refl, ap, ◌∙◌, arith, Bool-cases, inl, inr, u8}
use sys.Base.Bits.{bit_and-0xFF, bit_or-zero_left}
use sys.Cpu.Capture.{capture}
use sys.Cpu.Clock.{settle}
use sys.Cpu.Alu.{execute}
use sys.Cpu.Commit.{commit}
use sys.Cpu.Cycle.{finish, fetch, cycle_of}
use sys.Cpu.Handler.{Handler}
use sys.Cpu.Move.{load_through_alu, commit_load_result}
use sys.Cpu.MoveSwitch.{RegisterCase, load_case}
use sys.Cpu.State.{Cpu, CpuStep, go_to, next_pc, low, high, reading}
use sys.Isa.Exec.{with_address, load_at, put_register}
use sys.Isa.Instr.{Mode, Register}
use sys.Isa.Machine.{Machine, visible, fetch_byte}
use sys.Memory.Interface.{BusAccess}
use sys.Refinement.Finishes.{Finishes, conclude, continue}

abbrev pub case_of : Register → RegisterCase
case_of Register.a = RegisterCase.a
case_of Register.x = RegisterCase.x
case_of Register.y = RegisterCase.y

-- The capture/commit pair of a mode.
abbrev pub load_handler : Mode → Handler
load_handler Mode.immediate = Handler.load_immediate
load_handler Mode.zero_page = Handler.load_zero_page
load_handler Mode.zero_page_x = Handler.load_zero_page_x
load_handler Mode.zero_page_y = Handler.load_zero_page_y
load_handler Mode.absolute = Handler.load_absolute
load_handler Mode.absolute_x = Handler.load_absolute_x
load_handler Mode.absolute_y = Handler.load_absolute_y
load_handler Mode.indirect_x = Handler.load_indirect_x
load_handler Mode.indirect_y = Handler.load_indirect_y

module _ {M : Type 0} where
  -- Committing a load is the documented one, for whatever byte the ALU has let through.
  load_commits :
      (reg : Register) (v : ℕ) (u : Cpu M)
      → load_case u.ir ≡ case_of reg
      → u.alu_output.value ≡ u8 v
      → visible (commit_load_result u) ≡ put_register reg (u8 v) (visible u)
  unfolding commit_load_result put_register visible
  load_commits Register.a v u e q = ground arith
  load_commits _ v u e q = ground arith

module _ {M : Type 0} ⦃access : BusAccess M⦄ where
  -- The T-state that reads the operand ends the instruction.
  operand_load :
      (n : ℕ) (h : Handler) (reg : Register) (addr : ℕ) (t : Cpu M)
      → load_case t.ir ≡ case_of reg
      → capture h (settle high t) ≡ reading addr (settle high t) load_through_alu
      → ((u : Cpu M)
          → u.cpu_step ≡ t.cpu_step
          → u.page_crossed ≡ t.page_crossed
          → commit h u ≡ go_to CpuStep.t0 (commit_load_result u))
      → Finishes (suc n) h t (load_at reg addr (visible t))
  unfolding cycle_of settle visible load_at load_through_alu execute
  operand_load n h reg addr t e captures commits =
      let v = (access.read t.bus addr).0 in
      let r = record (settle high t) { bus = (access.read t.bus addr).1 } in
      let u = settle low (load_through_alu v r) in
      conclude n h t (commit_load_result u) (load_at reg addr (visible t))
        (ap (λ (w : Cpu M). commit h (settle low w)) captures ∙ commits u refl refl)
        (load_commits reg v u e (ap u8 (bit_or-zero_left v)))

module _ {M : Type 0} ⦃access : BusAccess M⦄ (reg : Register) (s : Cpu M)
    (loads : load_case (access.read s.bus s.pc).0 ≡ case_of reg) where
  abbrev pub documented : Mode → Machine M
  documented mode = fetch_byte (visible s) (λ _ m. with_address mode m (load_at reg))

  load_immediate : Finishes 6 Handler.load_immediate (fetch s) (documented Mode.immediate)
  unfolding finish fetch cycle_of capture commit settle visible with_address load_at execute
  load_immediate =
      let h = Handler.load_immediate in
      let t = fetch s in
      let v = (access.read t.bus t.pc).0 in
      let u = next_pc (settle low (capture h (settle high t))) in
      conclude 5 h t (commit_load_result u) (documented Mode.immediate) refl
        (load_commits reg v u loads (ap u8 (bit_or-zero_left v)))

  load_zero_page : Finishes 6 Handler.load_zero_page (fetch s) (documented Mode.zero_page)
  unfolding finish fetch cycle_of capture commit settle visible with_address
  load_zero_page =
      let h = Handler.load_zero_page in
      let t = cycle_of h (fetch s) in operand_load 4 h reg t.addr_latch t loads refl (λ u e p. rw e)

  load_zero_page_x : Finishes 6 Handler.load_zero_page_x (fetch s) (documented Mode.zero_page_x)
  unfolding finish fetch cycle_of capture commit settle visible with_address
  load_zero_page_x =
      let h = Handler.load_zero_page_x in
      let t = cycle_of h (cycle_of h (fetch s)) in
      simp (← bit_and-0xFF) (operand_load 3 h reg t.addr_latch t loads refl (λ u e p. rw e))

  load_zero_page_y : Finishes 6 Handler.load_zero_page_y (fetch s) (documented Mode.zero_page_y)
  unfolding finish fetch cycle_of capture commit settle visible with_address
  load_zero_page_y =
      let h = Handler.load_zero_page_y in
      let t = cycle_of h (cycle_of h (fetch s)) in
      simp (← bit_and-0xFF) (operand_load 3 h reg t.addr_latch t loads refl (λ u e p. rw e))

  load_absolute : Finishes 6 Handler.load_absolute (fetch s) (documented Mode.absolute)
  unfolding finish fetch cycle_of capture commit settle visible with_address
  load_absolute =
      let h = Handler.load_absolute in
      let t = cycle_of h (cycle_of h (fetch s)) in
      operand_load 3 h reg t.addr_latch t loads refl (λ u e p. rw e)

  load_absolute_x : Finishes 6 Handler.load_absolute_x (fetch s) (documented Mode.absolute_x)
  unfolding finish fetch cycle_of capture commit settle visible with_address
  load_absolute_x =
      let h = Handler.load_absolute_x in
      let t = cycle_of h (cycle_of h (fetch s)) in
      let late = go_to CpuStep.t4 (settle low t) in
      elim (Bool-cases t.page_crossed) [
        | inl crossed ↦
            continue 3 h t late (documented Mode.absolute_x) (rw crossed) (λ q. cc)
              (operand_load 2 h reg t.eff_addr late loads refl (λ u e p. rw e))
        | inr same ↦ operand_load 3 h reg t.eff_addr t loads (rw same) (λ u e p. rw (e, p, same))
      ]

  load_absolute_y : Finishes 6 Handler.load_absolute_y (fetch s) (documented Mode.absolute_y)
  unfolding finish fetch cycle_of capture commit settle visible with_address
  load_absolute_y =
      let h = Handler.load_absolute_y in
      let t = cycle_of h (cycle_of h (fetch s)) in
      let late = go_to CpuStep.t4 (settle low t) in
      elim (Bool-cases t.page_crossed) [
        | inl crossed ↦
            continue 3 h t late (documented Mode.absolute_y) (rw crossed) (λ q. cc)
              (operand_load 2 h reg t.eff_addr late loads refl (λ u e p. rw e))
        | inr same ↦ operand_load 3 h reg t.eff_addr t loads (rw same) (λ u e p. rw (e, p, same))
      ]

  load_indirect_x : Finishes 6 Handler.load_indirect_x (fetch s) (documented Mode.indirect_x)
  unfolding finish fetch cycle_of capture commit settle visible with_address
  load_indirect_x =
      let h = Handler.load_indirect_x in
      let t = cycle_of h (cycle_of h (cycle_of h (cycle_of h (fetch s)))) in
      simp (← bit_and-0xFF) (operand_load 1 h reg t.eff_addr t loads refl (λ u e p. rw e))

  load_indirect_y : Finishes 6 Handler.load_indirect_y (fetch s) (documented Mode.indirect_y)
  unfolding finish fetch cycle_of capture commit settle visible with_address
  load_indirect_y =
      let h = Handler.load_indirect_y in
      let t = cycle_of h (cycle_of h (cycle_of h (fetch s))) in
      let late = go_to CpuStep.t5 (settle low t) in
      elim (Bool-cases t.page_crossed) [
        | inl crossed ↦
            continue 2 h t late (documented Mode.indirect_y) (rw crossed) (λ q. cc)
              (simp (← bit_and-0xFF)
                (operand_load 1 h reg t.eff_addr late loads refl (λ u e p. rw e)))
        | inr same ↦
            simp (← bit_and-0xFF)
              (operand_load 2 h reg t.eff_addr t loads (rw same) (λ u e p. rw (e, p, same)))
      ]

  pub load_lem : (mode : Mode) → Finishes 6 (load_handler mode) (fetch s) (documented mode)
  load_lem Mode.immediate = load_immediate
  load_lem Mode.zero_page = load_zero_page
  load_lem Mode.zero_page_x = load_zero_page_x
  load_lem Mode.zero_page_y = load_zero_page_y
  load_lem Mode.absolute = load_absolute
  load_lem Mode.absolute_x = load_absolute_x
  load_lem Mode.absolute_y = load_absolute_y
  load_lem Mode.indirect_x = load_indirect_x
  load_lem Mode.indirect_y = load_indirect_y
