-- ===== src/Refinement/Run.antt =====
-- src/cpu/cpu6502.cpp: `run` and `reset` as wholes.
use sys.Base.{
  arith, ℕ, zero, suc, ◌≡◌, refl, ap, sym, ◌∙◌, ◌+◌, true, false, some, u8, join, Bool-cases, inl,
  inr,
}
use sys.Cpu.Clock.{
  execute_instruction, run, reset, begin_reset, at_boundary, tick, tick_to_boundary, settle,
  clock_edge, next_clock_phase, on_clock_high, on_clock_low,
}
use sys.Cpu.Cycle.{IsBetween}
use sys.Cpu.Jump.{capture_reset, commit_reset}
use sys.Cpu.State.{Cpu, ClockPhase, low}
use sys.Isa.Machine.{Machine, visible, load_byte}
use sys.Isa.Step.{isa_step}
use sys.Memory.Interface.{BusAccess, ReadsBytes}
use sys.Refinement.Instruction.{execute_instruction-isa_step}

module _ {M : Type 0} ⦃access : BusAccess M⦄ where
  -- At most so many documented instructions, none after the machine has halted.
  unfoldable pub isa_run : ℕ → Machine M → Machine M
  isa_run zero m = m
  isa_run (suc left) m = elim m.halted [ true ↦ m | false ↦ isa_run left (isa_step m) ]

  run-halted : (n : ℕ) (s : Cpu M) → s.halted ≡ true → run (suc n) s ≡ some (s.halted, s)
  unfolding run
  run-halted n s e = ground arith

  pub run-step :
      (n : ℕ) (s t : Cpu M)
      → s.halted ≡ false
      → execute_instruction s ≡ some t
      → run (suc n) s ≡ run n t
  unfolding run
  run-step n s t e r = ground arith

  isa_run-halted : (n : ℕ) (m : Machine M) → m.halted ≡ true → isa_run (suc n) m ≡ m
  unfolding isa_run
  isa_run-halted n m e = ground arith

  isa_run-step :
      (n : ℕ) (m : Machine M) → m.halted ≡ false → isa_run (suc n) m ≡ isa_run n (isa_step m)
  unfolding isa_run
  isa_run-step n m e = ground arith

  -- From between two instructions, with a memory whose reads give bytes, `run` of any number of
  -- instructions ends between two instructions, has done what so many documented instructions do,
  -- none after a halt, and returns the halt flag.
  pub run-isa_run :
      (n : ℕ) (s : Cpu M)
      → ReadsBytes access
      → IsBetween s
      → (t : Cpu M) × (run n s ≡ some (t.halted, t))
        × (visible t ≡ isa_run n (visible s))
        × IsBetween t
  run-isa_run zero s bytes v = (s, (unfold run in refl), (unfold isa_run in refl), v)
  run-isa_run (suc n) s bytes v = elim (Bool-cases s.halted) [
    | inl stop ↦
        (s, run-halted n s stop, sym (isa_run-halted n (visible s) (unfold visible in stop)), v)
    | inr go ↦
        let (t, ends, same, w) = execute_instruction-isa_step s bytes v in
        let (u, ran, alike, between) = run-isa_run n t bytes w in
        (
          u,
          run-step n s t go ends ∙ ran,
          alike ∙ ap (isa_run n) same ∙ sym (isa_run-step n (visible s) (unfold visible in go)),
          between,
        )
  ]

  -- What the reset sequence is to do: two idle fetches, the stack pointer down by three as in an
  -- interrupt, interrupts off, and PC from the vector.
  unfoldable pub isa_reset : Machine M → Machine M
  isa_reset m = load_byte m.pc m λ _ m₁. load_byte m₁.pc m₁ λ _ m₂. load_byte 0xFFFC m₂ λ lo m₃.
      load_byte 0xFFFD m₃ λ hi m₄. record m₄ {
        sp = u8 (u8 (u8 (m.sp + 255) + 255) + 255);
        p_flags = record (m.p_flags) { i = true };
        halted = false;
        pc = join lo hi;
      }

  -- With the clock low, whatever else is going on, the reset sequence ends between two
  -- instructions: after two idle reads at PC, the stack pointer is down by three, I is set, the
  -- halt is over and PC is the word at 0xFFFC; no other register or flag changes.
  pub reset-isa_reset :
      (s : Cpu M)
      → s.clock_phase ≡ low
      → (t : Cpu M) × (reset s ≡ some t) × (visible t ≡ isa_reset (visible s)) × IsBetween t
  unfolding reset begin_reset at_boundary tick tick_to_boundary settle clock_edge next_clock_phase
      on_clock_high on_clock_low capture_reset commit_reset visible isa_reset
  reset-isa_reset s e = (
    _,
    ap (λ (q : ClockPhase). reset (record s { clock_phase = q })) e,
    refl,
    record { at_t0 = refl; phase = refl; not_resetting = refl },
  )
