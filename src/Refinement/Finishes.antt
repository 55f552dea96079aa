-- ===== src/Refinement/Finishes.antt =====
-- How the T-states of an instruction end, step by step.
use sys.Base.{ℕ, suc, ◌≡◌, ◌≢◌, ap, ◌∙◌, sym, some}
use sys.Cpu.Cycle.{finish, cycle_of, finish_stops, finish_goes_on}
use sys.Cpu.Handler.{Handler}
use sys.Cpu.State.{Cpu, CpuStep, go_to}
use sys.Isa.Machine.{Machine, visible}
use sys.Memory.Interface.{BusAccess}

module _ {M : Type 0} ⦃access : BusAccess M⦄ where
  -- Within n T-states of the handler the CPU is back at T0, and shows the machine m.
  abbrev pub Finishes : ℕ → Handler → Cpu M → Machine M → Type 0
  Finishes n h s m = (t : Cpu M) × (finish n h s ≡ some t) × (visible t ≡ m)

  pub conclude :
      (n : ℕ) (h : Handler) (s u : Cpu M) (m : Machine M)
      → cycle_of h s ≡ go_to CpuStep.t0 u
      → visible u ≡ m
      → Finishes (suc n) h s m
  unfolding visible
  conclude n h s u m e v =
      (cycle_of h s, finish_stops n h s (ap (λ (t : Cpu M). t.cpu_step) e), ap visible e ∙ v)

  pub continue :
      (n : ℕ) (h : Handler) (s t : Cpu M) (m : Machine M)
      → cycle_of h s ≡ t
      → t.cpu_step ≢ CpuStep.t0
      → Finishes n h t m
      → Finishes (suc n) h s m
  continue n h s t m e ne (r, f, v) = (
    r,
    finish_goes_on n h s (λ q. ne (sym (ap (λ (t : Cpu M). t.cpu_step) e) ∙ q))
        ∙ ap (finish n h) e
        ∙ f,
    v,
  )
