-- ===== src/Refinement/Traces.antt =====
-- src/cpu/cpu6502.cpp: `run` over a piece of code whose documented run is known.
use sys.Base.{ℕ, suc, ◌≡◌, refl, ap, ◌∙◌, some}
use sys.Cpu.Clock.{run}
use sys.Cpu.Cycle.{IsBetween}
use sys.Cpu.State.{Cpu}
use sys.Isa.Machine.{Machine, visible}
use sys.Isa.Step.{isa_step}
use sys.Isa.Trace.{Runs, done, next}
use sys.Memory.Interface.{BusAccess, ReadsBytes}
use sys.Refinement.Instruction.{execute_instruction-isa_step}
use sys.Refinement.Run.{run-step}

module _ {M : Type 0} ⦃access : BusAccess M⦄ where
  -- Some number of instructions takes the CPU from the one state to the other.
  unfoldable pub Reaches : Cpu M → Machine M → Type 0
  Reaches s m =
      (n : ℕ) × (t : Cpu M) × (run n s ≡ some (t.halted, t)) × (visible t ≡ m) × IsBetween t

  pub Runs-Reaches :
      (s : Cpu M) (l m : Machine M)
      → ReadsBytes access
      → IsBetween s
      → visible s ≡ l
      → Runs l m
      → Reaches s m
  unfolding Reaches
  Runs-Reaches s l m bytes v e (done _) = (0, s, (unfold run in refl), e, v)
  Runs-Reaches s l m bytes v e (next _ _ go r) =
      let (t, ends, same, w) = execute_instruction-isa_step s bytes v in
      let (n, u, ran, alike, between) =
        Runs-Reaches t (isa_step l) m bytes w (same ∙ ap isa_step e) r in
      let alike_halt : s.halted ≡ l.halted = unfold visible in ap (λ (k : Machine M). k.halted) e in
      let on = alike_halt ∙ go in (suc n, u, run-step n s t on ends ∙ ran, alike, between)
