-- ===== src/Cpu/Cycle/Ticks.antt =====
-- What each of the four ticks of a T-state does, and the loop over whole T-states.
use sys.Base.{ℕ, suc, ◌≡◌, ◌≢◌, refl, ap, ◌∙◌, arith, false, some}
use sys.Base.{if◌then◌else◌}
use sys.Cpu.CaptureSwitch.{capture_case}
use sys.Cpu.Clock.{
  next_clock_phase, capture_opcode_fetch, on_clock_high, on_clock_low, settle, clock_edge, tick,
  at_boundary, tick_to_boundary,
}
use sys.Cpu.Cycle.Frame.{capture-Kept}
use sys.Cpu.Jump.{capture_reset}
use sys.Cpu.State.{Cpu, ClockPhase, low, low_to_high, high, high_to_low}
use sys.Memory.Interface.{BusAccess}

module _ {M : Type 0} ⦃access : BusAccess M⦄ where
  tick_from :
      (s : Cpu M) (phase : ClockPhase)
      → s.clock_phase ≡ phase
      → tick s ≡ clock_edge (next_clock_phase phase) (settle (next_clock_phase phase) s)
  unfolding tick
  tick_from s phase e = ap (λ q. clock_edge (next_clock_phase q) (settle (next_clock_phase q) s)) e

  pub tick-low : (s : Cpu M) → s.clock_phase ≡ low → tick s ≡ settle low_to_high s
  unfolding next_clock_phase clock_edge
  tick-low s e = tick_from s low e

  pub tick-low_to_high :
      (s : Cpu M) → s.clock_phase ≡ low_to_high → tick s ≡ on_clock_high (settle high s)
  unfolding next_clock_phase clock_edge
  tick-low_to_high s e = tick_from s low_to_high e

  pub tick-high : (s : Cpu M) → s.clock_phase ≡ high → tick s ≡ settle high_to_low s
  unfolding next_clock_phase clock_edge
  tick-high s e = tick_from s high e

  pub tick-high_to_low :
      (s : Cpu M) → s.clock_phase ≡ high_to_low → tick s ≡ on_clock_low (settle low s)
  unfolding next_clock_phase clock_edge
  tick-high_to_low s e = tick_from s high_to_low e

  -- The captures and commits of a T-state, with the ALU settled before each.
  unfoldable pub cycle : Cpu M → Cpu M
  cycle s = on_clock_low (settle low (on_clock_high (settle high s)))

  pub on_clock_high_phase : (s : Cpu M) → (on_clock_high s).clock_phase ≡ s.clock_phase
  unfolding on_clock_high capture_reset capture_opcode_fetch
  on_clock_high_phase s = ground (arith, capture-Kept (capture_case s.ir) s)

  not_at_boundary :
      (s : Cpu M) (phase : ClockPhase) → s.clock_phase ≡ phase → phase ≢ low → at_boundary s ≡ false
  unfolding at_boundary
  not_at_boundary s phase e ne = ground arith

  -- A tick that ends away from the boundary is a round of the loop.
  round :
      (fuel : ℕ) (s t : Cpu M)
      → tick s ≡ t
      → at_boundary t ≡ false
      → tick_to_boundary (suc fuel) s ≡ tick_to_boundary fuel t
  unfolding tick_to_boundary
  round fuel s t e b = rw (e, b)

  last_round :
      (fuel : ℕ) (s t : Cpu M)
      → tick s ≡ t
      → tick_to_boundary (suc fuel) s ≡ (if at_boundary t then some t else tick_to_boundary fuel t)
  unfolding tick_to_boundary
  last_round fuel s t e = rw e

  -- Four ticks from the Low phase are one `cycle`, and no boundary lies inside them.
  pub tick_to_boundary-cycle :
      (fuel : ℕ) (s : Cpu M)
      → s.clock_phase ≡ low
      → tick_to_boundary (suc (suc (suc (suc fuel)))) s
        ≡ (if at_boundary (cycle s) then some (cycle s) else tick_to_boundary fuel (cycle s))
  unfolding settle cycle
  tick_to_boundary-cycle fuel s e =
      let s₁ = settle low_to_high s in
      let s₂ = on_clock_high (settle high s) in
      let s₃ = settle high_to_low s₂ in
      let e₂ : s₂.clock_phase ≡ high = on_clock_high_phase (settle high s) in
      round (suc (suc (suc fuel))) s s₁ (tick-low s e)
        (not_at_boundary s₁ low_to_high refl (λ q. cc))
      ∙ round (suc (suc fuel)) s₁ s₂ (tick-low_to_high s₁ refl)
          (not_at_boundary s₂ high e₂ (λ q. cc))
      ∙ round (suc fuel) s₂ s₃ (tick-high s₂ e₂) (not_at_boundary s₃ high_to_low refl (λ q. cc))
      ∙ last_round fuel s₃ (cycle s) (tick-high_to_low s₃ refl)
