-- ===== src/Refinement/Routing.antt =====
-- The switches on the opcode agree with the opcode matrix of docs/6502-manual.md, and with one
-- another. Each is checked on all 256 opcodes.
use sys.Base.{ℕ, IsByte, ◌≡◌, refl, true}
use sys.Base.Tables.{
  all_below, all_below_sound, decides, decides_sound, dec-both, dec-three, dec-not,
}
use native.Mathlib.Decide.{ℕ_discrete}
use sys.Cpu.BinarySwitch.{BinaryCase, ResultCase, apply_binary_case, commit_binary_case}
use sys.Cpu.CaptureSwitch.{capture_case}
use sys.Cpu.CommitSwitch.{commit_case}
use sys.Cpu.Handler.{Handler}
use sys.Cpu.MoveSwitch.{RegisterCase, load_case, store_case}
use sys.Cpu.UnarySwitch.{UnaryCase, UnaryResultCase, apply_unary_case, commit_unary_case}
use sys.Isa.Decode.{decode}
use sys.Isa.Instr.{
  Mode, Instr, Place, accumulator, memory, binary, unary, load, store, branch, implied, control,
  undocumented,
}
use sys.Refinement.Binary.{apply_of as binary_apply, result_of as binary_result}
use sys.Refinement.Flow.{condition_opcode, control_opcode, control_handler}
use sys.Refinement.Implied.{opcode_of, implied_handler}
use sys.Refinement.Load.{case_of, load_handler}
use sys.Refinement.Read.{read_handler}
use sys.Refinement.Store.{store_handler}
use sys.Refinement.Unary.{apply_of as unary_apply, result_of as unary_result}

-- The capture/commit pair that an instruction needs.
abbrev pub place_handler : Place → Handler
place_handler accumulator = Handler.shift_accumulator
place_handler (memory Mode.zero_page) = Handler.rmw_zero_page
place_handler (memory Mode.zero_page_x) = Handler.rmw_zero_page_x
place_handler (memory Mode.absolute) = Handler.rmw_absolute
place_handler (memory Mode.absolute_x) = Handler.rmw_absolute_x
place_handler (memory _) = Handler.unimplemented

abbrev pub handler_of : Instr → Handler
handler_of (binary op mode) = read_handler mode
handler_of (unary op place) = place_handler place
handler_of (load reg mode) = load_handler mode
handler_of (store reg mode) = store_handler mode
handler_of (branch cond) = Handler.branch
handler_of (implied op) = implied_handler op
handler_of (control op) = control_handler op
handler_of undocumented = Handler.unimplemented

-- The handler is not the `default` unless the manual lacks the opcode, and the inner switches of
-- the family know the opcode.
abbrev pub Inner : Instr → ℕ → Type 0
Inner (binary op mode) n =
    (apply_binary_case n ≡ binary_apply op)
    × (commit_binary_case n ≡ binary_result op)
    × ¬ (mode ≡ Mode.zero_page_y)
Inner (unary op place) n =
    (apply_unary_case n ≡ unary_apply op)
    × (commit_unary_case n ≡ unary_result op)
    × ¬ (place_handler place ≡ Handler.unimplemented)
Inner (load reg mode) n = load_case n ≡ case_of reg
Inner (store reg mode) n = (store_case n ≡ case_of reg) × ¬ (mode ≡ Mode.immediate)
Inner (branch cond) n = n ≡ condition_opcode cond
Inner (implied op) n = n ≡ opcode_of op
Inner (control op) n = n ≡ control_opcode op
Inner undocumented n = Unit {0}

abbrev pub Routed : ℕ → Type 0
Routed n =
    (capture_case n ≡ handler_of (decode n))
    × (commit_case n ≡ handler_of (decode n))
    × Inner (decode n) n

Handler-discrete : Discrete Handler
Handler-discrete = hlevel

BinaryCase-discrete : Discrete BinaryCase
BinaryCase-discrete = hlevel

ResultCase-discrete : Discrete ResultCase
ResultCase-discrete = hlevel

UnaryCase-discrete : Discrete UnaryCase
UnaryCase-discrete = hlevel

UnaryResultCase-discrete : Discrete UnaryResultCase
UnaryResultCase-discrete = hlevel

RegisterCase-discrete : Discrete RegisterCase
RegisterCase-discrete = hlevel

Mode-discrete : Discrete Mode
Mode-discrete = hlevel

dec-Inner : (i : Instr) (n : ℕ) → Dec (Inner i n)
unfolding dec-both dec-three dec-not Handler-discrete BinaryCase-discrete ResultCase-discrete
    UnaryCase-discrete UnaryResultCase-discrete RegisterCase-discrete Mode-discrete ℕ_discrete
dec-Inner (binary op mode) n =
    dec-three (BinaryCase-discrete (apply_binary_case n) (binary_apply op))
      (ResultCase-discrete (commit_binary_case n) (binary_result op))
      (dec-not (Mode-discrete mode Mode.zero_page_y))
dec-Inner (unary op place) n =
    dec-three (UnaryCase-discrete (apply_unary_case n) (unary_apply op))
      (UnaryResultCase-discrete (commit_unary_case n) (unary_result op))
      (dec-not (Handler-discrete (place_handler place) Handler.unimplemented))
dec-Inner (load reg mode) n = RegisterCase-discrete (load_case n) (case_of reg)
dec-Inner (store reg mode) n =
    dec-both (RegisterCase-discrete (store_case n) (case_of reg))
      (dec-not (Mode-discrete mode Mode.immediate))
dec-Inner (branch cond) n = ℕ_discrete n (condition_opcode cond)
dec-Inner (implied op) n = ℕ_discrete n (opcode_of op)
dec-Inner (control op) n = ℕ_discrete n (control_opcode op)
dec-Inner undocumented n = yes tt

dec-Routed : (n : ℕ) → Dec (Routed n)
unfolding dec-Inner dec-three Handler-discrete
dec-Routed n =
    dec-three (Handler-discrete (capture_case n) (handler_of (decode n)))
      (Handler-discrete (commit_case n) (handler_of (decode n))) (dec-Inner (decode n) n)

routed_table : all_below 256 (λ n. decides (dec-Routed n)) ≡ true
unfolding all_below decides dec-Routed decode capture_case commit_case apply_binary_case
    commit_binary_case apply_unary_case commit_unary_case load_case store_case
routed_table = refl

-- For every byte as opcode, the switches of the two clock edges choose the same handler, the one
-- for the manual's instruction and addressing mode, and the switches inside shared handlers choose
-- the manual's operation or register.
pub routed : (n : ℕ) → IsByte n → Routed n
routed n h =
    decides_sound (dec-Routed n)
      (all_below_sound 256 (λ k. decides (dec-Routed k)) n routed_table h)
