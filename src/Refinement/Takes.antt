-- ===== src/Refinement/Takes.antt =====
-- src/cpu/cpu6502.cpp: exactly how many T-states the handlers take that can cross a page.
use sys.Base.{
  ℕ, zero, suc, ◌+◌, ◌≡◌, ◌≢◌, refl, sym, ◌∙◌, ap, subst, arith, Bool, true, false, none, some,
  if◌then◌else◌,
}
use sys.Cpu.Capture.{capture}
use sys.Cpu.Clock.{settle}
use sys.Cpu.Cycle.{finish, cycle_of, finish_stops, finish_goes_on}
use sys.Cpu.Handler.{Handler}
use sys.Cpu.State.{Cpu, CpuStep, high}
use sys.Isa.Penalties.{one_if}
use sys.Memory.Interface.{BusAccess}
use sys.Refinement.Timing.{after, next_step}

module _ {M : Type 0} ⦃access : BusAccess M⦄ where
  -- So many T-states of the handler, no fewer and no more.
  unfoldable pub Takes : ℕ → Handler → Cpu M → Type 0
  Takes zero h s = ⊥
  Takes (suc n) h s = (finish n h s ≡ none) × ((t : Cpu M) × (finish (suc n) h s ≡ some t))

  pub Takes-one : (h : Handler) (s : Cpu M) → (cycle_of h s).cpu_step ≡ CpuStep.t0 → Takes 1 h s
  unfolding Takes
  Takes-one h s e = ((unfold finish in refl), (cycle_of h s, finish_stops 0 h s e))

  one_more :
      (n : ℕ) (h : Handler) (s : Cpu M)
      → (cycle_of h s).cpu_step ≢ CpuStep.t0
      → Takes n h (cycle_of h s)
      → Takes (suc n) h s
  unfolding Takes
  one_more zero h s ne v = absurd v
  one_more (suc n) h s ne (none_yet, (t, ends)) =
      (finish_goes_on n h s ne ∙ none_yet, (t, finish_goes_on (suc n) h s ne ∙ ends))

  pub Takes-more :
      (n m : ℕ) (h : Handler) (s : Cpu M)
      → (cycle_of h s).cpu_step ≢ CpuStep.t0
      → m ≡ suc n
      → Takes n h (cycle_of h s)
      → Takes m h s
  Takes-more n m h s ne e v = subst (λ (k : ℕ). Takes k h s) (sym e) (one_more n h s ne v)

  -- A last T-state that a crossing delays by one.
  pub Takes-crossing :
      (h : Handler) (s : Cpu M) (c : Bool) (late : CpuStep)
      → late ≢ CpuStep.t0
      → (cycle_of h s).cpu_step ≡ (if c then late else CpuStep.t0)
      → (c ≡ true → (cycle_of h (cycle_of h s)).cpu_step ≡ CpuStep.t0)
      → Takes (1 + one_if c) h s
  Takes-crossing h s true late ne e f =
      Takes-more 1 2 h s (λ q. ne (sym e ∙ q)) refl (Takes-one h (cycle_of h s) (f refl))
  Takes-crossing h s false late ne e f = Takes-one h s e

  -- A T-state that the latches have no say in.
  pub settled_step :
      (h : Handler) (s : Cpu M) (step next : CpuStep)
      → s.cpu_step ≡ step
      → ((crossed taken : Bool) → after h step crossed taken ≡ next)
      → (cycle_of h s).cpu_step ≡ next
  settled_step h s step next e f =
      next_step h s
      ∙ ap
          (λ (k : CpuStep).
            after h k (capture h (settle high s)).page_crossed
              (capture h (settle high s)).branch_taken)
          e
      ∙ f _ _

  -- The T-state in which an indexed read is made if no page is crossed.
  pub early_read :
      (h : Handler) (s : Cpu M) (step late : CpuStep)
      → s.cpu_step ≡ step
      → late ≢ CpuStep.t0
      → (cycle_of h s).cpu_step ≡ (if s.page_crossed then late else CpuStep.t0)
      → ((crossed taken : Bool) → after h late crossed taken ≡ CpuStep.t0)
      → Takes (1 + one_if s.page_crossed) h s
  early_read h s step late e ne f g = Takes-crossing h s s.page_crossed late ne f (λ c.
      settled_step h (cycle_of h s) late CpuStep.t0
        (f ∙ ap (λ (b : Bool). if b then late else CpuStep.t0) c) g)

  pub two_before :
      (k : ℕ) (h : Handler) (s : Cpu M)
      → (cycle_of h s).cpu_step ≢ CpuStep.t0
      → (cycle_of h (cycle_of h s)).cpu_step ≢ CpuStep.t0
      → Takes (1 + k) h (cycle_of h (cycle_of h s))
      → Takes (3 + k) h s
  two_before k h s ne ne' v =
      Takes-more (2 + k) _ h s ne (omega arith)
        (Takes-more (1 + k) _ h (cycle_of h s) ne' (omega arith) v)

  pub three_before :
      (k : ℕ) (h : Handler) (s : Cpu M)
      → (cycle_of h s).cpu_step ≢ CpuStep.t0
      → (cycle_of h (cycle_of h s)).cpu_step ≢ CpuStep.t0
      → (cycle_of h (cycle_of h (cycle_of h s))).cpu_step ≢ CpuStep.t0
      → Takes (1 + k) h (cycle_of h (cycle_of h (cycle_of h s)))
      → Takes (4 + k) h s
  three_before k h s ne ne' ne_third v =
      Takes-more (3 + k) _ h s ne (omega arith) (two_before k h (cycle_of h s) ne' ne_third v)
