-- ===== src/Refinement/Flow.antt =====
-- Branches, jumps and the stack.
use sys.Base.{
  ℕ, ◌+◌, ◌*◌, ◌/◌, ◌%◌, ◌<◌, ◌≡◌, refl, ap, ◌∙◌, arith, Bool-cases, inl, inr, u8, u16, join,
  bit_and, bit_or,
}
use sys.Base.Bits.{bit_and-0xFF, bit_and-0xFF00, bit_or_bytes, bit_or_comm}
use sys.Cpu.Capture.{capture}
use sys.Cpu.Clock.{settle}
use sys.Cpu.Commit.{commit}
use sys.Cpu.Cycle.{finish, fetch, cycle_of}
use sys.Cpu.Flags.{Flags}
use sys.Cpu.Handler.{Handler}
use sys.Cpu.Jump.{evaluate_branch_condition}
use sys.Cpu.State.{Cpu, CpuStep, go_to, next_pc, low, high}
use sys.Isa.Flow.{holds, exec_branch, exec_control}
use sys.Isa.Instr.{Condition, Control}
use sys.Isa.Machine.{visible, fetch_byte}
use sys.Memory.Interface.{BusAccess}
use sys.Refinement.Finishes.{Finishes, conclude, continue}

abbrev pub condition_opcode : Condition → ℕ
condition_opcode Condition.bpl = 0x10
condition_opcode Condition.bmi = 0x30
condition_opcode Condition.bvc = 0x50
condition_opcode Condition.bvs = 0x70
condition_opcode Condition.bcc = 0x90
condition_opcode Condition.bcs = 0xB0
condition_opcode Condition.bne = 0xD0
condition_opcode Condition.beq = 0xF0

abbrev pub control_opcode : Control → ℕ
control_opcode Control.brk = 0x00
control_opcode Control.jsr = 0x20
control_opcode Control.rts = 0x60
control_opcode Control.rti = 0x40
control_opcode Control.jmp_absolute = 0x4C
control_opcode Control.jmp_indirect = 0x6C
control_opcode Control.pha = 0x48
control_opcode Control.php = 0x08
control_opcode Control.pla = 0x68
control_opcode Control.plp = 0x28

abbrev pub control_handler : Control → Handler
control_handler Control.brk = Handler.brk
control_handler Control.jsr = Handler.jsr
control_handler Control.rts = Handler.rts
control_handler Control.rti = Handler.rti
control_handler Control.jmp_absolute = Handler.jmp_absolute
control_handler Control.jmp_indirect = Handler.jmp_indirect
control_handler Control.pha = Handler.implied_push
control_handler Control.php = Handler.implied_push
control_handler Control.pla = Handler.implied_pull
control_handler Control.plp = Handler.implied_pull

-- The switch on the opcode picks the documented condition.
pub condition_lem :
    (cond : Condition) (opcode : ℕ) (f : Flags)
    → opcode ≡ condition_opcode cond
    → evaluate_branch_condition opcode f.c f.z f.n f.v ≡ holds cond f
unfolding evaluate_branch_condition holds
condition_lem Condition.bpl opcode f e = rw e
condition_lem _ opcode f e = rw e

low_byte : (w : ℕ) → u8 (bit_and w 0xFF) ≡ w % 256
low_byte w = omega (arith, bit_and-0xFF w)

-- The address of a pointer's high byte stays in the pointer's page.
same_page :
    (w : ℕ)
    → w < 65536
    → u16 (bit_or (bit_and w 0xFF00) (bit_and (w + 1) 0x00FF)) ≡ w / 256 * 256 + (w + 1) % 256
same_page w h =
    let page : bit_or (bit_and w 0xFF00) (bit_and (w + 1) 0x00FF)
        ≡ bit_or (w / 256 * 256) ((w + 1) % 256) =
      ap (λ (t : ℕ). bit_or t (bit_and (w + 1) 0x00FF)) (bit_and-0xFF00 w h)
      ∙ ap (bit_or (w / 256 * 256)) (bit_and-0xFF (w + 1)) in
    omega (
      arith,
      page,
      bit_or_comm (w / 256 * 256) ((w + 1) % 256),
      bit_or_bytes ((w + 1) % 256) (w / 256) (omega arith),
    )

same_page-join :
    (lo hi : ℕ)
    → let w = join lo hi in
      u16 (bit_or (bit_and w 0xFF00) (bit_and (w + 1) 0x00FF)) ≡ w / 256 * 256 + (w + 1) % 256
same_page-join lo hi = same_page (join lo hi) (unfold join in omega arith)

module _ {M : Type 0} ⦃access : BusAccess M⦄ (s : Cpu M) where
  finish_brk :
      (access.read s.bus s.pc).0 ≡ control_opcode Control.brk
      → Finishes 6 Handler.brk
          (fetch s)
          (fetch_byte (visible s) (λ _ m. exec_control Control.brk m))
  unfolding finish fetch cycle_of capture commit settle visible exec_control
  finish_brk e = (_, refl, rw low_byte refl)

  finish_jsr :
      (access.read s.bus s.pc).0 ≡ control_opcode Control.jsr
      → Finishes 6 Handler.jsr
          (fetch s)
          (fetch_byte (visible s) (λ _ m. exec_control Control.jsr m))
  unfolding finish fetch cycle_of capture commit settle visible exec_control
  finish_jsr e = (_, refl, rw (low_byte, bit_and-0xFF) refl)

  finish_rts :
      (access.read s.bus s.pc).0 ≡ control_opcode Control.rts
      → Finishes 6 Handler.rts
          (fetch s)
          (fetch_byte (visible s) (λ _ m. exec_control Control.rts m))
  unfolding finish fetch cycle_of capture commit settle visible exec_control
  finish_rts e = (_, refl, rw bit_and-0xFF refl)

  finish_rti :
      (access.read s.bus s.pc).0 ≡ control_opcode Control.rti
      → Finishes 6 Handler.rti
          (fetch s)
          (fetch_byte (visible s) (λ _ m. exec_control Control.rti m))
  unfolding finish fetch cycle_of capture commit settle visible exec_control
  finish_rti e = (_, refl, refl)

  finish_jmp_absolute :
      (access.read s.bus s.pc).0 ≡ control_opcode Control.jmp_absolute
      → Finishes 6 Handler.jmp_absolute
          (fetch s)
          (fetch_byte (visible s) (λ _ m. exec_control Control.jmp_absolute m))
  unfolding finish fetch cycle_of capture commit settle visible exec_control
  finish_jmp_absolute e = (_, refl, refl)

  finish_jmp_indirect :
      (access.read s.bus s.pc).0 ≡ control_opcode Control.jmp_indirect
      → Finishes 6 Handler.jmp_indirect
          (fetch s)
          (fetch_byte (visible s) (λ _ m. exec_control Control.jmp_indirect m))
  unfolding finish fetch cycle_of capture commit settle visible exec_control
  finish_jmp_indirect e = (_, refl, rw same_page-join refl)

  finish_pha :
      (access.read s.bus s.pc).0 ≡ control_opcode Control.pha
      → Finishes 6 Handler.implied_push
          (fetch s)
          (fetch_byte (visible s) (λ _ m. exec_control Control.pha m))
  unfolding finish fetch cycle_of capture commit settle visible exec_control
  finish_pha e = (_, refl, rw e refl)

  finish_php :
      (access.read s.bus s.pc).0 ≡ control_opcode Control.php
      → Finishes 6 Handler.implied_push
          (fetch s)
          (fetch_byte (visible s) (λ _ m. exec_control Control.php m))
  unfolding finish fetch cycle_of capture commit settle visible exec_control
  finish_php e = (_, refl, rw e refl)

  finish_pla :
      (access.read s.bus s.pc).0 ≡ control_opcode Control.pla
      → Finishes 6 Handler.implied_pull
          (fetch s)
          (fetch_byte (visible s) (λ _ m. exec_control Control.pla m))
  unfolding finish fetch cycle_of capture commit settle visible exec_control
  finish_pla e = (_, refl, rw e refl)

  finish_plp :
      (access.read s.bus s.pc).0 ≡ control_opcode Control.plp
      → Finishes 6 Handler.implied_pull
          (fetch s)
          (fetch_byte (visible s) (λ _ m. exec_control Control.plp m))
  unfolding finish fetch cycle_of capture commit settle visible exec_control
  finish_plp e = (_, refl, rw e refl)

  pub control_lem :
      (op : Control)
      → (access.read s.bus s.pc).0 ≡ control_opcode op
      → Finishes 6
          (control_handler op)
          (fetch s)
          (fetch_byte (visible s) (λ _ m. exec_control op m))
  control_lem Control.brk e = finish_brk e
  control_lem Control.jsr e = finish_jsr e
  control_lem Control.rts e = finish_rts e
  control_lem Control.rti e = finish_rti e
  control_lem Control.jmp_absolute e = finish_jmp_absolute e
  control_lem Control.jmp_indirect e = finish_jmp_indirect e
  control_lem Control.pha e = finish_pha e
  control_lem Control.php e = finish_php e
  control_lem Control.pla e = finish_pla e
  control_lem Control.plp e = finish_plp e

  -- A branch not taken ends after its offset; one taken needs a T-state more, and another if the
  -- target lies in another page.
  pub branch_lem :
      (cond : Condition)
      → (access.read s.bus s.pc).0 ≡ condition_opcode cond
      → Finishes 6 Handler.branch (fetch s) (fetch_byte (visible s) (λ _ m. exec_branch cond m))
  unfolding finish fetch cycle_of capture commit settle visible exec_branch
  branch_lem cond e =
      let goal = fetch_byte (visible s) (λ _ m. exec_branch cond m) in
      let picked = condition_lem cond (access.read s.bus s.pc).0 s.p_flags e in
      let h = Handler.branch in
      let t = fetch s in
      let u = next_pc (settle low (capture h (settle high t))) in
      let v = settle low (capture h (settle high (go_to CpuStep.t2 u))) in
      elim (Bool-cases (holds cond s.p_flags)) [
        | inr stays ↦ conclude 5 h t u goal (rw (picked, stays)) (rw stays)
        | inl goes ↦
            continue 5 h t (go_to CpuStep.t2 u) goal (rw (picked, goes)) (λ q. cc)
              (elim (Bool-cases v.page_crossed) [
                | inr near ↦
                    conclude 4 h (go_to CpuStep.t2 u) (record v { pc = v.eff_addr }) goal (rw near)
                      (rw goes)
                | inl far ↦
                    continue 4 h (go_to CpuStep.t2 u) (go_to CpuStep.t3 v) goal (rw far) (λ q. cc)
                      (conclude 3 h (go_to CpuStep.t3 v) (record v { pc = v.eff_addr }) goal refl
                        (rw goes))
              ])
      ]
