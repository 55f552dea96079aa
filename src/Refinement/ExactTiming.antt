-- ===== src/Refinement/ExactTiming.antt =====
-- src/cpu/cpu6502.cpp: exactly how many cycles each instruction takes.
use sys.Base.{ℕ, zero, suc, ◌*◌, ◌+◌, ◌-◌, ◌≡◌, refl, sym, ◌∙◌, ap, subst, arith, true, none, some}
use sys.Cpu.CaptureSwitch.{capture_case}
use sys.Cpu.CommitSwitch.{commit_case}
use sys.Cpu.Clock.{tick_to_boundary}
use sys.Cpu.Cycle.{fetch, IsBetween, ticks_for, tick_to_boundary-fetch}
use sys.Cpu.Handler.{Handler}
use sys.Cpu.State.{Cpu, CpuStep}
use sys.Isa.Cycles.{base_cycles, extra_cycles}
use sys.Isa.Decode.{decode}
use sys.Isa.Instr.{Instr, Mode, binary, load, branch}
use sys.Isa.Machine.{visible, fetch_byte}
use sys.Isa.Penalties.{penalty, isa_cycles}
use sys.Memory.Interface.{BusAccess, ReadsBytes}
use sys.Refinement.Routing.{Inner, handler_of, routed}
use sys.Refinement.BranchTiming.{branch-Takes}
use sys.Refinement.IndexedTiming.{
  read_absolute_x-Takes, read_absolute_y-Takes, read_indirect_y-Takes, load_absolute_x-Takes,
  load_absolute_y-Takes, load_indirect_y-Takes,
}
use sys.Refinement.Takes.{Takes}
use sys.Refinement.Timing.{busy, done, finish-busy, finish-done, in_time-bounds, four_ticks, two}

module _ {M : Type 0} ⦃access : BusAccess M⦄ (s : Cpu M) where
  abbrev added_cycles : Instr → ℕ
  added_cycles i = fetch_byte (visible s) (λ n m. penalty i m)

  -- An instruction that always takes the same time.
  plain-Takes :
      (i : Instr)
      → busy (base_cycles i - 2) (handler_of i) CpuStep.t1 ≡ true
      → done (base_cycles i + extra_cycles i - 1) (handler_of i) CpuStep.t1 ≡ true
      → extra_cycles i ≡ 0
      → added_cycles i ≡ 0
      → Takes (base_cycles i - 1 + added_cycles i) (handler_of i) (fetch s)
  unfolding Takes
  plain-Takes i early late no_extra no_penalty =
      let h = handler_of i in
      let n = base_cycles i - 2 in
      let exact : base_cycles i + extra_cycles i - 1 ≡ suc n = omega (arith, no_extra, two i) in
      let total : suc n ≡ base_cycles i - 1 + added_cycles i = omega (arith, no_penalty, two i) in
      let step : (fetch s).cpu_step ≡ CpuStep.t1 = unfold fetch in refl in
      subst (λ (k : ℕ). Takes k h (fetch s)) total
        (
          finish-busy n h (fetch s) (ap (busy n h) step ∙ early),
          finish-done (suc n) h (fetch s)
              (ap (done (suc n) h) step ∙ ap (λ (k : ℕ). done k h CpuStep.t1) (sym exact) ∙ late),
        )

  instr-Takes :
      (i : Instr)
      → Inner i (access.read s.bus s.pc).0
      → busy (base_cycles i - 2) (handler_of i) CpuStep.t1 ≡ true
      → done (base_cycles i + extra_cycles i - 1) (handler_of i) CpuStep.t1 ≡ true
      → Takes (base_cycles i - 1 + added_cycles i) (handler_of i) (fetch s)
  unfolding base_cycles extra_cycles penalty visible
  instr-Takes (binary op Mode.absolute_x) inner early late = read_absolute_x-Takes s
  instr-Takes (binary op Mode.absolute_y) inner early late = read_absolute_y-Takes s
  instr-Takes (binary op Mode.indirect_y) inner early late = read_indirect_y-Takes s
  instr-Takes (load reg Mode.absolute_x) inner early late = load_absolute_x-Takes s
  instr-Takes (load reg Mode.absolute_y) inner early late = load_absolute_y-Takes s
  instr-Takes (load reg Mode.indirect_y) inner early late = load_indirect_y-Takes s
  instr-Takes (branch cond) inner early late = branch-Takes s cond inner
  instr-Takes (binary op mode) inner early late = plain-Takes (binary op mode) early late refl refl
  instr-Takes (load reg mode) inner early late = plain-Takes (load reg mode) early late refl refl
  instr-Takes i inner early late = plain-Takes i early late refl refl

module _ {M : Type 0} ⦃access : BusAccess M⦄ where
  ticked :
      (k : ℕ) (h : Handler) (s : Cpu M)
      → IsBetween s
      → capture_case (access.read s.bus s.pc).0 ≡ h
      → commit_case (access.read s.bus s.pc).0 ≡ h
      → Takes k h (fetch s)
      → (tick_to_boundary (4 * k) s ≡ none)
        × ((t : Cpu M) × (tick_to_boundary (4 * (k + 1)) s ≡ some t))
  unfolding Takes
  ticked zero h s v c d takes = absurd takes
  ticked (suc n) h s v c d (early, (t, late)) =
      let before : 4 * suc n ≡ ticks_for (suc n) = sym (four_ticks (suc n)) in
      let by_then : 4 * (suc n + 1) ≡ ticks_for (suc (suc n)) =
        omega (arith, four_ticks (suc (suc n))) in
      (
        ap (λ (k : ℕ). tick_to_boundary k s) before ∙ tick_to_boundary-fetch n h s v c d ∙ early,
        (
          t,
          ap (λ (k : ℕ). tick_to_boundary k s) by_then
              ∙ tick_to_boundary-fetch (suc n) h s v c d
              ∙ late,
        ),
      )

  -- From between two instructions, with a memory whose reads give bytes, `executeInstruction` is at
  -- the start of the next instruction after exactly as many cycles of four ticks as the manual gives
  -- for the opcode, with one more for an indexed read (not a store or a read-modify-write) that
  -- leaves the page of its base, one more for a branch that is taken and another if that leaves the
  -- page: one cycle earlier it is not.
  pub execute_instruction-isa_cycles :
      (s : Cpu M)
      → ReadsBytes access
      → IsBetween s
      → (tick_to_boundary (4 * (isa_cycles (visible s) - 1)) s ≡ none)
        × ((t : Cpu M) × (tick_to_boundary (4 * isa_cycles (visible s)) s ≡ some t))
  execute_instruction-isa_cycles s bytes v =
      let n = (access.read s.bus s.pc).0 in
      let (c, d, inner) = routed n (bytes s.bus s.pc) in
      let (early, late) = in_time-bounds n (bytes s.bus s.pc) in
      let takes = instr-Takes s (decode n) inner early late in
      let count : isa_cycles (visible s) ≡ base_cycles (decode n) + added_cycles s (decode n) =
        unfold isa_cycles visible in refl in
      let k = base_cycles (decode n) - 1 + added_cycles s (decode n) in
      let (none_yet, (t, ends)) = ticked k (handler_of (decode n)) s v c d takes in
      let one_less : isa_cycles (visible s) - 1 ≡ k = omega (arith, count, two (decode n)) in
      let whole : isa_cycles (visible s) ≡ k + 1 = omega (arith, count, two (decode n)) in
      (
        ap (λ (j : ℕ). tick_to_boundary (4 * j) s) one_less ∙ none_yet,
        (t, ap (λ (j : ℕ). tick_to_boundary (4 * j) s) whole ∙ ends),
      )
