-- ===== src/Cpu/Cycle/Finish.antt =====
-- An instruction after its opcode fetch: T-states of one handler until the CPU is back at T0.
use sys.Base.{
  ℕ, zero, suc, ◌≡◌, ◌≢◌, ◌⊎◌, inl, inr, refl, ap, ◌∙◌, sym, arith, Bool, true, false, Option, none,
  some,
}
use sys.Base.{if◌then◌else◌}
use sys.Cpu.Capture.{capture}
use sys.Cpu.CaptureSwitch.{capture_case}
use sys.Cpu.Clock.{
  on_clock_high, on_clock_low, settle, at_boundary, tick_to_boundary, execute_instruction,
  capture_opcode_fetch, commit_opcode_fetch,
}
use sys.Cpu.Commit.{commit}
use sys.Cpu.CommitSwitch.{commit_case}
use sys.Cpu.Cycle.Frame.{capture-Kept, commit-Kept, capture_step}
use sys.Cpu.Cycle.Ticks.{cycle, tick_to_boundary-cycle}
use sys.Cpu.Handler.{Handler}
use sys.Cpu.State.{Cpu, CpuStep, low, high}
use sys.Memory.Interface.{BusAccess}

-- Four ticks of fuel for each T-state.
unfoldable pub ticks_for : ℕ → ℕ
ticks_for zero = zero
ticks_for (suc n) = suc (suc (suc (suc (ticks_for n))))

pub step-cases : (c : CpuStep) → (c ≡ CpuStep.t0) ⊎ (c ≢ CpuStep.t0)
step-cases CpuStep.t0 = inl refl
step-cases _ = inr (λ q. cc)

module _ {M : Type 0} ⦃access : BusAccess M⦄ where
  -- A T-state after T0, by the handler of the opcode.
  unfoldable pub cycle_of : Handler → Cpu M → Cpu M
  cycle_of h s = commit h (settle low (capture h (settle high s)))

  -- T-states until T0, at most so many.
  unfoldable pub finish : ℕ → Handler → Cpu M → Option (Cpu M)
  finish zero h s = none
  finish (suc n) h s =
      let s' = cycle_of h s in
      let rest = finish n h s' in elim s'.cpu_step [ CpuStep.t0 ↦ some s' | _ ↦ rest ]

  -- Both edges of the clock lead to the handler.
  pub record IsHandledBy (h : Handler) (s : Cpu M) : Type 0 where
    pub phase : s.clock_phase ≡ low
    pub not_resetting : s.reset_active ≡ false
    pub captures : capture_case s.ir ≡ h
    pub commits : commit_case s.ir ≡ h

  -- The fetch, as the two edges of T0 do it.
  unfoldable pub fetch : Cpu M → Cpu M
  unfolding capture_opcode_fetch commit_opcode_fetch settle
  fetch s = commit_opcode_fetch (settle low (capture_opcode_fetch (settle high s)))

  on_clock_high-handled :
      (h : Handler) (s : Cpu M)
      → s.reset_active ≡ false
      → s.cpu_step ≢ CpuStep.t0
      → capture_case s.ir ≡ h
      → on_clock_high s ≡ capture h s
  unfolding on_clock_high
  on_clock_high-handled h s r ne e = ground arith

  on_clock_low-handled :
      (h : Handler) (s : Cpu M)
      → s.reset_active ≡ false
      → s.cpu_step ≢ CpuStep.t0
      → commit_case s.ir ≡ h
      → on_clock_low s ≡ commit h s
  unfolding on_clock_low
  on_clock_low-handled h s r ne e = ground arith

  -- Away from T0 a cycle is the handler's.
  pub cycle-handled :
      (h : Handler) (s : Cpu M) → IsHandledBy h s → s.cpu_step ≢ CpuStep.t0 → cycle s ≡ cycle_of h s
  unfolding cycle cycle_of settle
  cycle-handled h s v ne =
      let t = capture h (settle high s) in
      let kept = capture-Kept h (settle high s) in
      ap (λ (u : Cpu M). on_clock_low (settle low u))
        (on_clock_high-handled h (settle high s) v.not_resetting ne v.captures)
      ∙ on_clock_low-handled h (settle low t) (kept.resetting ∙ v.not_resetting)
          (λ q. ne (sym (capture_step h (settle high s)) ∙ q))
          (ap commit_case kept.opcode ∙ v.commits)

  on_clock_high-fetch :
      (s : Cpu M)
      → s.reset_active ≡ false
      → s.cpu_step ≡ CpuStep.t0
      → on_clock_high s ≡ capture_opcode_fetch s
  unfolding on_clock_high
  on_clock_high-fetch s r e = ground arith

  on_clock_low-fetch :
      (s : Cpu M)
      → s.reset_active ≡ false
      → s.cpu_step ≡ CpuStep.t0
      → on_clock_low s ≡ commit_opcode_fetch s
  unfolding on_clock_low
  on_clock_low-fetch s r e = ground arith

  -- At T0 it is the fetch.
  pub cycle-fetch :
      (s : Cpu M) → s.reset_active ≡ false → s.cpu_step ≡ CpuStep.t0 → cycle s ≡ fetch s
  unfolding cycle fetch settle
  cycle-fetch s r e =
      ap (λ (u : Cpu M). on_clock_low (settle low u)) (on_clock_high-fetch (settle high s) r e)
      ∙ on_clock_low-fetch (settle low (capture_opcode_fetch (settle high s))) r e

  pub cycle_of-IsHandledBy :
      (h : Handler) (s : Cpu M) → IsHandledBy h s → IsHandledBy h (cycle_of h s)
  unfolding cycle_of settle
  cycle_of-IsHandledBy h s v =
      let c = capture-Kept h (settle high s) in
      let d = commit-Kept h (settle low (capture h (settle high s))) in
      record {
        phase = d.phase;
        not_resetting = d.resetting ∙ c.resetting ∙ v.not_resetting;
        captures = ap capture_case (d.opcode ∙ c.opcode) ∙ v.captures;
        commits = ap commit_case (d.opcode ∙ c.opcode) ∙ v.commits;
      }

  not_over : (s : Cpu M) → s.cpu_step ≢ CpuStep.t0 → at_boundary s ≡ false
  unfolding at_boundary
  not_over s ne = ground arith

  over : (s : Cpu M) → s.cpu_step ≡ CpuStep.t0 → s.clock_phase ≡ low → at_boundary s ≡ true
  unfolding at_boundary
  over s e q = ground arith

  pub finish_stops :
      (n : ℕ) (h : Handler) (s : Cpu M)
      → (cycle_of h s).cpu_step ≡ CpuStep.t0
      → finish (suc n) h s ≡ some (cycle_of h s)
  unfolding finish
  finish_stops n h s e = ground arith

  pub finish_goes_on :
      (n : ℕ) (h : Handler) (s : Cpu M)
      → (cycle_of h s).cpu_step ≢ CpuStep.t0
      → finish (suc n) h s ≡ finish n h (cycle_of h s)
  unfolding finish
  finish_goes_on n h s ne = ground arith

  -- The loop of ticks from within an instruction is the handler's run of T-states.
  pub tick_to_boundary-finish :
      (n : ℕ) (h : Handler) (s : Cpu M)
      → IsHandledBy h s
      → s.cpu_step ≢ CpuStep.t0
      → tick_to_boundary (ticks_for n) s ≡ finish n h s
  unfolding tick_to_boundary finish ticks_for
  tick_to_boundary-finish zero h s v ne = refl
  tick_to_boundary-finish (suc n) h s v ne =
      let t = cycle_of h s in
      let w = cycle_of-IsHandledBy h s v in
      let turn =
        tick_to_boundary-cycle (ticks_for n) s v.phase
        ∙ ap (λ (u : Cpu M). if at_boundary u then some u else tick_to_boundary (ticks_for n) u)
            (cycle-handled h s v ne) in
      elim (step-cases t.cpu_step) [
        | inl e ↦
            turn
            ∙ ap (λ (b : Bool). if b then some t else tick_to_boundary (ticks_for n) t)
                (over t e w.phase)
            ∙ sym (finish_stops n h s e)
        | inr go ↦
            turn
            ∙ ap (λ (b : Bool). if b then some t else tick_to_boundary (ticks_for n) t)
                (not_over t go)
            ∙ tick_to_boundary-finish n h t w go
            ∙ sym (finish_goes_on n h s go)
      ]

  -- Between two instructions.
  pub record IsBetween (s : Cpu M) : Type 0 where
    pub at_t0 : s.cpu_step ≡ CpuStep.t0
    pub phase : s.clock_phase ≡ low
    pub not_resetting : s.reset_active ≡ false

  pub fetch-IsHandledBy :
      (h : Handler) (s : Cpu M)
      → IsBetween s
      → capture_case (access.read s.bus s.pc).0 ≡ h
      → commit_case (access.read s.bus s.pc).0 ≡ h
      → IsHandledBy h (fetch s)
  unfolding fetch
  fetch-IsHandledBy h s v c d = record {
    phase = refl;
    not_resetting = v.not_resetting;
    captures = c;
    commits = d;
  }

  -- The loop of ticks from between two instructions: the fetch, and T-states of the handler.
  pub tick_to_boundary-fetch :
      (n : ℕ) (h : Handler) (s : Cpu M)
      → IsBetween s
      → capture_case (access.read s.bus s.pc).0 ≡ h
      → commit_case (access.read s.bus s.pc).0 ≡ h
      → tick_to_boundary (ticks_for (suc n)) s ≡ finish n h (fetch s)
  unfolding ticks_for
  tick_to_boundary-fetch n h s v c d =
      tick_to_boundary-cycle (ticks_for n) s v.phase
      ∙ ap (λ (u : Cpu M). if at_boundary u then some u else tick_to_boundary (ticks_for n) u)
          (cycle-fetch s v.not_resetting v.at_t0)
      ∙ ap (λ (b : Bool). if b then some (fetch s) else tick_to_boundary (ticks_for n) (fetch s))
          (not_over (fetch s) (unfold fetch in λ q. cc))
      ∙ tick_to_boundary-finish n h (fetch s) (fetch-IsHandledBy h s v c d)
          (unfold fetch in λ q. cc)

  -- A whole instruction: the fetch, and at most six T-states of its handler.
  pub execute_instruction-finish :
      (h : Handler) (s : Cpu M)
      → IsBetween s
      → capture_case (access.read s.bus s.pc).0 ≡ h
      → commit_case (access.read s.bus s.pc).0 ≡ h
      → execute_instruction s ≡ finish 6 h (fetch s)
  unfolding execute_instruction ticks_for
  execute_instruction-finish h s v c d = tick_to_boundary-fetch 6 h s v c d
