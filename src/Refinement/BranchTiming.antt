-- ===== src/Refinement/BranchTiming.antt =====
-- src/cpu/cpu6502.cpp: the T-states of a branch.
use sys.Base.{ℕ, ◌+◌, ◌≡◌, refl, sym, ◌∙◌, ap, arith, Bool, true, false, if◌then◌else◌}
use sys.Cpu.Addressing.{relative_address}
use sys.Cpu.Capture.{capture}
use sys.Cpu.Clock.{settle}
use sys.Cpu.Commit.{commit}
use sys.Cpu.Cycle.{fetch, cycle_of}
use sys.Cpu.Handler.{Handler}
use sys.Cpu.State.{Cpu, CpuStep, new_cpu}
use sys.Isa.Flow.{holds}
use sys.Isa.Instr.{Condition, branch}
use sys.Refinement.Flow.{condition_lem, condition_opcode}
use sys.Isa.Machine.{visible, fetch_byte}
use sys.Isa.Penalties.{one_if, penalty}
use sys.Memory.Interface.{BusAccess}
use sys.Refinement.Timing.{after}
use sys.Refinement.Takes.{Takes, Takes-one, Takes-more, Takes-crossing, settled_step}

unreset : CpuStep.t2 ≡ CpuStep.t0 → ⊥
unreset e = cc

module _ {M : Type 0} ⦃access : BusAccess M⦄ where
  -- A branch that is taken, from the T-state in which the target is worked out.
  branch_near :
      (s : Cpu M)
      → s.cpu_step ≡ CpuStep.t2
      → (cycle_of Handler.branch s).cpu_step
        ≡ (if (relative_address s.pc s.branch_offset).page_crossed then CpuStep.t3 else CpuStep.t0)
  unfolding cycle_of capture commit settle
  branch_near s e = ground (arith, e)

  branch_goes :
      (s : Cpu M)
      → s.cpu_step ≡ CpuStep.t2
      → Takes (1 + one_if (relative_address s.pc s.branch_offset).page_crossed) Handler.branch s
  branch_goes s e =
      let c = (relative_address s.pc s.branch_offset).page_crossed in
      let near = branch_near s e in
      Takes-crossing Handler.branch s c CpuStep.t3 (λ q. cc) near
        (λ far.
          settled_step Handler.branch (cycle_of Handler.branch s) CpuStep.t3 CpuStep.t0
            (near ∙ ap (λ (b : Bool). if b then CpuStep.t3 else CpuStep.t0) far)
            (λ k l. unfold after commit new_cpu in refl))

  branch_chooses :
      (b : Bool) (n : ℕ) (s : Cpu M)
      → (cycle_of Handler.branch s).cpu_step ≡ (if b then CpuStep.t2 else CpuStep.t0)
      → (b ≡ true → Takes (1 + n) Handler.branch (cycle_of Handler.branch s))
      → Takes (1 + (if b then 1 + n else 0)) Handler.branch s
  branch_chooses true n s e f =
      Takes-more (1 + n) _ Handler.branch s (λ q. absurd (unreset (sym e ∙ q))) (omega arith)
        (f refl)
  branch_chooses false n s e f = Takes-one Handler.branch s e

  pub branch-Takes :
      (s : Cpu M) (cond : Condition)
      → (access.read s.bus s.pc).0 ≡ condition_opcode cond
      → Takes (1 + fetch_byte (visible s) (λ n m. penalty (branch cond) m)) Handler.branch (fetch s)
  unfolding cycle_of fetch capture commit settle penalty visible
  branch-Takes s cond e =
      let picked = condition_lem cond (access.read s.bus s.pc).0 s.p_flags e in
      let t = cycle_of Handler.branch (fetch s) in
      branch_chooses (holds cond s.p_flags)
        (one_if (relative_address t.pc t.branch_offset).page_crossed) (fetch s)
        (ap (λ (b : Bool). if b then CpuStep.t2 else CpuStep.t0) picked)
        (λ goes.
          branch_goes t (ap (λ (b : Bool). if b then CpuStep.t2 else CpuStep.t0) (picked ∙ goes)))
