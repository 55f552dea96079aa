-- ===== src/Refinement/Instruction.antt =====
-- The main theorem: ticking the CPU from one instruction to the next does what the manual says.
use sys.Base.{ℕ, zero, suc, ◌≡◌, refl, sym, subst, ◌∙◌, some, inl, inr}
use sys.Cpu.Capture.{capture}
use sys.Cpu.Commit.{commit}
use sys.Cpu.Clock.{settle, execute_instruction}
use sys.Cpu.Cycle.{
  finish, fetch, cycle_of, IsBetween, IsHandledBy, cycle_of-IsHandledBy, fetch-IsHandledBy,
  execute_instruction-finish, finish_stops, finish_goes_on, step-cases,
}
use sys.Cpu.Handler.{Handler}
use sys.Cpu.State.{Cpu}
use sys.Isa.Decode.{decode}
use sys.Isa.Instr.{
  Instr, Mode, accumulator, memory, binary, unary, load, store, branch, implied, control,
  undocumented,
}
use sys.Isa.Machine.{visible, fetch_byte}
use sys.Isa.Step.{exec, isa_step}
use sys.Memory.Interface.{BusAccess, ReadsBytes}
use sys.Refinement.Finishes.{Finishes}
use sys.Refinement.Flow.{control_lem, branch_lem}
use sys.Refinement.Implied.{implied_lem}
use sys.Refinement.Load.{load_lem}
use sys.Refinement.Read.{read_lem}
use sys.Refinement.Routing.{Inner, handler_of, routed}
use sys.Refinement.Store.{store_lem}
use sys.Refinement.Unary.{
  shift_accumulator, rmw_zero_page, rmw_zero_page_x, rmw_absolute, rmw_absolute_x,
}

some_same {ℓ} : {A : Type ℓ} {a b : A} → some a ≡ some b → a ≡ b
some_same e = cc

module _ {M : Type 0} ⦃access : BusAccess M⦄ where
  -- An opcode that no `case` names: the `default` only goes back to T0.
  unimplemented_lem :
      (s : Cpu M) → Finishes 6 Handler.unimplemented (fetch s) (fetch_byte (visible s) (λ _ m. m))
  unfolding finish fetch cycle_of capture commit settle visible
  unimplemented_lem s = (_, refl, refl)

  -- The T-states of the handler of an instruction carry the instruction out.
  instr_finishes :
      (i : Instr) (s : Cpu M)
      → Inner i (access.read s.bus s.pc).0
      → Finishes 6 (handler_of i) (fetch s) (fetch_byte (visible s) (λ _ m. exec i m))
  unfolding exec
  instr_finishes (binary op mode) s (a, r, ne) = read_lem op s a r mode ne
  instr_finishes (unary op accumulator) s (a, r, ne) = shift_accumulator op s a r
  instr_finishes (unary op (memory Mode.zero_page)) s (a, r, ne) = rmw_zero_page op s a r
  instr_finishes (unary op (memory Mode.zero_page_x)) s (a, r, ne) = rmw_zero_page_x op s a r
  instr_finishes (unary op (memory Mode.absolute)) s (a, r, ne) = rmw_absolute op s a r
  instr_finishes (unary op (memory Mode.absolute_x)) s (a, r, ne) = rmw_absolute_x op s a r
  instr_finishes (unary op (memory _)) s (a, r, ne) = absurd (ne refl)
  instr_finishes (load reg mode) s l = load_lem reg s l mode
  instr_finishes (store reg mode) s (l, ne) = store_lem reg s l mode ne
  instr_finishes (branch cond) s e = branch_lem s cond e
  instr_finishes (implied op) s e = implied_lem op s e
  instr_finishes (control op) s e = control_lem s op e
  instr_finishes undocumented s u = unimplemented_lem s

  -- A run of T-states ends between two instructions.
  finish-IsBetween :
      (n : ℕ) (h : Handler) (s t : Cpu M) → IsHandledBy h s → finish n h s ≡ some t → IsBetween t
  unfolding finish
  finish-IsBetween zero h s t v e = cc
  finish-IsBetween (suc n) h s t v e =
      let w = cycle_of-IsHandledBy h s v in
      elim (step-cases (cycle_of h s).cpu_step) [
        | inl over ↦
            subst IsBetween (some_same (sym (finish_stops n h s over) ∙ e))
              (record { at_t0 = over; phase = w.phase; not_resetting = w.not_resetting })
        | inr on ↦ finish-IsBetween n h (cycle_of h s) t w (sym (finish_goes_on n h s on) ∙ e)
      ]

  -- From between two instructions, with a memory whose reads give bytes, the loop of ticks of
  -- `executeInstruction` ends, again between two instructions, and what a program can see
  -- (registers, flags, halt and memory, with its devices' reactions to each access in order) is
  -- then what the one instruction that the manual documents for the opcode at PC makes of it.
  pub execute_instruction-isa_step :
      (s : Cpu M)
      → ReadsBytes access
      → IsBetween s
      → (t : Cpu M) × (execute_instruction s ≡ some t)
        × (visible t ≡ isa_step (visible s))
        × IsBetween t
  unfolding isa_step visible
  execute_instruction-isa_step s bytes v =
      let n = (access.read s.bus s.pc).0 in
      let (c, d, inner) = routed n (bytes s.bus s.pc) in
      let (t, ends, same) = instr_finishes (decode n) s inner in
      let run_of = execute_instruction-finish (handler_of (decode n)) s v c d in
      (
        t,
        run_of ∙ ends,
        same,
        finish-IsBetween 6 (handler_of (decode n)) (fetch s) t
            (fetch-IsHandledBy (handler_of (decode n)) s v c d) ends,
      )
