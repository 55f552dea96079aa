-- ===== src/Refinement/Timing.antt =====
-- src/cpu/cpu6502.cpp: how many T-states an instruction takes, against the manual's cycle counts.
use sys.Base.{
  ◌*◌, ◌≤◌, ◌≢◌, ◌⊎◌, ℕ, zero, suc, ◌+◌, ◌-◌, ◌≡◌, refl, sym, ◌∙◌, ap, arith, Bool, true, false,
  ◌&&◌, none, some, inl, inr, IsByte,
}
use sys.Base.Tables.{all_below, all_below_sound}
use sys.Cpu.Binary.{commit_binary_alu_result}
use sys.Cpu.Commit.{commit}
use sys.Cpu.Capture.{capture}
use sys.Cpu.Clock.{settle, tick_to_boundary}
use sys.Cpu.Cycle.{
  fetch, IsBetween, ticks_for, tick_to_boundary-fetch, finish, cycle_of, finish_stops,
  finish_goes_on, capture_step,
}
use sys.Cpu.Handler.{Handler}
use sys.Cpu.Move.{commit_load_result}
use sys.Cpu.State.{Cpu, CpuStep, new_cpu, high, low}
use sys.Cpu.Unary.{commit_unary_alu_flags}
use sys.Refinement.Routing.{handler_of, routed}
use sys.Isa.Cycles.{
  base_cycles, extra_cycles, read_cycles, store_cycles, modify_cycles, control_cycles,
}
use sys.Isa.Decode.{decode}
use sys.Isa.Instr.{Instr, Mode, binary, unary, load, store, control}
use sys.Memory.Interface.{BusAccess, ReadsBytes}

-- A bus with nothing on it: the order of the T-states does not depend on the memory.
instance abbrev nothing : BusAccess Unit
nothing = record { read = λ m addr. (0, m); write = λ m addr val. m }

-- The T-state that a commit goes on to, by the two latches that decide it.
unfoldable pub after : Handler → CpuStep → Bool → Bool → CpuStep
after h step crossed taken =
    (commit h (record (new_cpu tt) {
      cpu_step = step;
      page_crossed = crossed;
      branch_taken = taken;
    })).cpu_step

module _ {M : Type 0} ⦃access : BusAccess M⦄ where
  commit_step :
      (h : Handler) (s : Cpu M)
      → (commit h s).cpu_step ≡ after h s.cpu_step s.page_crossed s.branch_taken
  unfolding commit commit_binary_alu_result commit_unary_alu_flags commit_load_result after new_cpu
  commit_step Handler.nop s = ground arith
  commit_step _ s = ground arith

-- A test at each setting of the two latches.
every_way : (Bool → Bool → Bool) → Bool
every_way p = p true true && (p true false && (p false true && p false false))

every_way_sound :
    (p : Bool → Bool → Bool) → every_way p ≡ true → (crossed taken : Bool) → p crossed taken ≡ true
unfolding every_way
every_way_sound p e true true = ground arith
every_way_sound p e true false = ground arith
every_way_sound p e false true = ground arith
every_way_sound p e false false = ground arith

-- What is left to check once a T-state has chosen the next: `over` at T0, the rest elsewhere.
unfoldable choose : Bool → Bool → CpuStep → Bool
choose over rest CpuStep.t0 = over
choose over rest _ = rest

-- No way through the handler is at its end within so many T-states.
pub busy : ℕ → Handler → CpuStep → Bool
busy zero h step = true
busy (suc n) h step = every_way λ crossed taken.
    let next = after h step crossed taken in let rest = busy n h next in choose false rest next

-- Every way through the handler is.
pub done : ℕ → Handler → CpuStep → Bool
done zero h step = false
done (suc n) h step = every_way λ crossed taken.
    let next = after h step crossed taken in let rest = done n h next in choose true rest next

choose_busy :
    (rest : Bool) (step : CpuStep)
    → choose false rest step ≡ true
    → (step ≢ CpuStep.t0) × (rest ≡ true)
unfolding choose
choose_busy rest step e = ground arith

choose_done :
    (rest : Bool) (step : CpuStep)
    → choose true rest step ≡ true
    → (step ≡ CpuStep.t0) ⊎ ((step ≢ CpuStep.t0) × (rest ≡ true))
unfolding choose
choose_done rest step e = ground arith

busy-suc :
    (n : ℕ) (h : Handler) (step : CpuStep) (crossed taken : Bool)
    → busy (suc n) h step ≡ true
    → (after h step crossed taken ≢ CpuStep.t0) × (busy n h (after h step crossed taken) ≡ true)
unfolding busy
busy-suc n h step crossed taken e =
    let next = after h step crossed taken in
    choose_busy (busy n h next) next (every_way_sound _ e crossed taken)

done-suc :
    (n : ℕ) (h : Handler) (step : CpuStep) (crossed taken : Bool)
    → done (suc n) h step ≡ true
    → (after h step crossed taken ≡ CpuStep.t0)
      ⊎ ((after h step crossed taken ≢ CpuStep.t0) × (done n h (after h step crossed taken) ≡ true))
unfolding done
done-suc n h step crossed taken e =
    let next = after h step crossed taken in
    choose_done (done n h next) next (every_way_sound _ e crossed taken)

module _ {M : Type 0} ⦃access : BusAccess M⦄ where
  pub next_step :
      (h : Handler) (s : Cpu M)
      → (cycle_of h s).cpu_step
        ≡ after h s.cpu_step
            (capture h (settle high s)).page_crossed
            (capture h (settle high s)).branch_taken
  unfolding cycle_of settle
  next_step h s =
      let t = capture h (settle high s) in
      commit_step h (settle low t)
      ∙ ap (λ (step : CpuStep). after h step t.page_crossed t.branch_taken)
          (capture_step h (settle high s))

  pub finish-busy :
      (n : ℕ) (h : Handler) (s : Cpu M) → busy n h s.cpu_step ≡ true → finish n h s ≡ none
  finish-busy zero h s e = unfold finish in refl
  finish-busy (suc n) h s e =
      let t = capture h (settle high s) in
      let (on, rest) = busy-suc n h s.cpu_step t.page_crossed t.branch_taken e in
      let step = next_step h s in
      finish_goes_on n h s (λ q. on (sym step ∙ q))
      ∙ finish-busy n h (cycle_of h s) (ap (busy n h) step ∙ rest)

  pub finish-done :
      (n : ℕ) (h : Handler) (s : Cpu M)
      → done n h s.cpu_step ≡ true
      → (t : Cpu M) × (finish n h s ≡ some t)
  finish-done zero h s e = absurd (unfold done in cc)
  finish-done (suc n) h s e =
      let t = capture h (settle high s) in
      let step = next_step h s in
      elim (done-suc n h s.cpu_step t.page_crossed t.branch_taken e) [
        | inl over ↦ (cycle_of h s, finish_stops n h s (step ∙ over))
        | inr (on, rest) ↦
            let (u, ends) = finish-done n h (cycle_of h s) (ap (done n h) step ∙ rest) in
            (u, finish_goes_on n h s (λ q. on (sym step ∙ q)) ∙ ends)
      ]

-- An instruction in time: not at its end one T-state before the manual's count, and at its end
-- after that and the manual's extra cycles. The fetch is the first of them.
in_time : ℕ → Bool
in_time n =
    let h = handler_of (decode n) in
    busy (base_cycles (decode n) - 2) h CpuStep.t1
    && done (base_cycles (decode n) + extra_cycles (decode n) - 1) h CpuStep.t1

timetable : all_below 256 in_time ≡ true
unfolding all_below in_time busy done every_way choose after commit new_cpu decode base_cycles
    extra_cycles
timetable = refl

pub in_time-bounds :
    (n : ℕ)
    → IsByte n
    → (busy (base_cycles (decode n) - 2) (handler_of (decode n)) CpuStep.t1 ≡ true)
      × (done
            (base_cycles (decode n) + extra_cycles (decode n) - 1)
            (handler_of (decode n))
            CpuStep.t1
          ≡ true)
unfolding in_time
in_time-bounds n h = let e = all_below_sound 256 in_time n timetable h in ground (arith, e)

pub four_ticks : (n : ℕ) → ticks_for n ≡ 4 * n
unfolding ticks_for
four_ticks zero = refl
four_ticks (suc n) = omega (arith, four_ticks n)

read-two : (mode : Mode) → 2 ≤ read_cycles mode
unfolding read_cycles
read-two mode = ground arith

pub two : (i : Instr) → 2 ≤ base_cycles i
unfolding base_cycles store_cycles modify_cycles control_cycles
two (binary op mode) = read-two mode
two (load reg mode) = read-two mode
two (store reg mode) = ground (arith, read-two mode)
two (unary op place) = ground arith
two (control op) = ground arith
two i = ground arith

module _ {M : Type 0} ⦃access : BusAccess M⦄ where
  -- From between two instructions, with a memory whose reads give bytes, an instruction takes
  -- the manual's number of cycles, with four ticks to each: one cycle earlier it is not at its
  -- end, and after the cycles that a page crossing or a branch adds at most, it is.
  pub execute_instruction-cycles :
      (s : Cpu M)
      → ReadsBytes access
      → IsBetween s
      → (tick_to_boundary (4 * (base_cycles (decode (access.read s.bus s.pc).0) - 1)) s ≡ none)
        × ((t : Cpu M) × (tick_to_boundary
                (4
                  * (base_cycles (decode (access.read s.bus s.pc).0)
                      + extra_cycles (decode (access.read s.bus s.pc).0)))
                s
              ≡ some t))
  execute_instruction-cycles s bytes v =
      let n = (access.read s.bus s.pc).0 in
      let h = handler_of (decode n) in
      let least = base_cycles (decode n) in
      let most = least + extra_cycles (decode n) in
      let (c, d, _) = routed n (bytes s.bus s.pc) in
      let (early, late) = in_time-bounds n (bytes s.bus s.pc) in
      let fetched : (fetch s).cpu_step ≡ CpuStep.t1 = unfold fetch in refl in
      let (t, ends) = finish-done (most - 1) h (fetch s) (ap (done (most - 1) h) fetched ∙ late) in
      let in_least : 4 * (least - 1) ≡ ticks_for (suc (least - 2)) =
        omega (arith, two (decode n), four_ticks (suc (least - 2))) in
      let in_most : 4 * most ≡ ticks_for (suc (most - 1)) =
        omega (arith, two (decode n), four_ticks (suc (most - 1))) in
      (
        ap (λ (k : ℕ). tick_to_boundary k s) in_least
            ∙ tick_to_boundary-fetch (least - 2) h s v c d
            ∙ finish-busy (least - 2) h (fetch s) (ap (busy (least - 2) h) fetched ∙ early),
        (
          t,
          ap (λ (k : ℕ). tick_to_boundary k s) in_most
              ∙ tick_to_boundary-fetch (most - 1) h s v c d
              ∙ ends,
        ),
      )
