-- ===== src/Cpu/Cycle/Phases.antt =====
-- The clock goes round, and `runToClockHigh` ends.
use sys.Base.{ℕ, suc, ◌≡◌, ◌≢◌, ◌∙◌, ap, arith, some, refl}
use sys.Cpu.Clock.{
  next_clock_phase, settle, tick, clock_edge, on_clock_low, tick_to_high, run_to_clock_high,
  commit_opcode_fetch,
}
use sys.Cpu.CommitSwitch.{commit_case}
use sys.Cpu.Cycle.Frame.{commit-Kept}
use sys.Cpu.Cycle.Ticks.{on_clock_high_phase}
use sys.Cpu.Jump.{commit_reset}
use sys.Cpu.State.{Cpu, ClockPhase, low, low_to_high, high, high_to_low}
use sys.Memory.Interface.{BusAccess}

module _ {M : Type 0} ⦃access : BusAccess M⦄ where
  on_clock_low_phase : (s : Cpu M) → (on_clock_low s).clock_phase ≡ s.clock_phase
  unfolding on_clock_low commit_reset commit_opcode_fetch
  on_clock_low_phase s = ground (arith, commit-Kept (commit_case s.ir) s)

  edge_phase : (p : ClockPhase) (s : Cpu M) → (clock_edge p s).clock_phase ≡ s.clock_phase
  unfolding clock_edge
  edge_phase high s = on_clock_high_phase s
  edge_phase low s = on_clock_low_phase s
  edge_phase low_to_high s = refl
  edge_phase high_to_low s = refl

  tick_phase : (s : Cpu M) → (tick s).clock_phase ≡ next_clock_phase s.clock_phase
  unfolding tick settle
  tick_phase s = let p = next_clock_phase s.clock_phase in edge_phase p (settle p s)

  stops : (n : ℕ) (s : Cpu M) → (tick s).clock_phase ≡ high → tick_to_high (suc n) s ≡ some (tick s)
  unfolding tick_to_high
  stops n s e = ground arith

  goes_on :
      (n : ℕ) (s : Cpu M)
      → (tick s).clock_phase ≢ high
      → tick_to_high (suc n) s ≡ tick_to_high n (tick s)
  unfolding tick_to_high
  goes_on n s ne = ground arith

  -- The high phase comes within so many ticks.
  abbrev Rises : ℕ → Cpu M → Type 0
  Rises n s = (t : Cpu M) × (tick_to_high n s ≡ some t) × (t.clock_phase ≡ high)

  one_later : (n : ℕ) (s : Cpu M) → (tick s).clock_phase ≢ high → Rises n (tick s) → Rises (suc n) s
  one_later n s ne (t, r, e) = (t, goes_on n s ne ∙ r, e)

  from_low_to_high : (n : ℕ) (s : Cpu M) → s.clock_phase ≡ low_to_high → Rises (suc n) s
  unfolding next_clock_phase
  from_low_to_high n s e =
      let up = tick_phase s ∙ ap next_clock_phase e in (tick s, stops n s up, up)

  from_low : (n : ℕ) (s : Cpu M) → s.clock_phase ≡ low → Rises (suc (suc n)) s
  unfolding next_clock_phase
  from_low n s e =
      let up = tick_phase s ∙ ap next_clock_phase e in
      one_later (suc n) s (λ q. cc) (from_low_to_high n (tick s) up)

  from_high_to_low : (n : ℕ) (s : Cpu M) → s.clock_phase ≡ high_to_low → Rises (suc (suc (suc n))) s
  unfolding next_clock_phase
  from_high_to_low n s e =
      let up = tick_phase s ∙ ap next_clock_phase e in
      one_later (suc (suc n)) s (λ q. cc) (from_low n (tick s) up)

  from_phase : (p : ClockPhase) (s : Cpu M) → s.clock_phase ≡ p → Rises 4 s
  unfolding next_clock_phase
  from_phase low s e = from_low 2 s e
  from_phase low_to_high s e = from_low_to_high 3 s e
  from_phase high_to_low s e = from_high_to_low 1 s e
  from_phase high s e =
      let up = tick_phase s ∙ ap next_clock_phase e in
      one_later 3 s (λ q. cc) (from_high_to_low 0 (tick s) up)

  -- From any state `runToClockHigh` ends in the high phase.
  pub run_to_clock_high-ends :
      (s : Cpu M) → (t : Cpu M) × (run_to_clock_high s ≡ some t) × (t.clock_phase ≡ high)
  unfolding run_to_clock_high
  run_to_clock_high-ends s = from_phase s.clock_phase s refl
