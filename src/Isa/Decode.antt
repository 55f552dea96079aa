-- ===== src/Isa/Decode.antt =====
-- docs/6502-manual.md: from an opcode to its instruction.
mod Alu
mod Rest
use sys.Base.{ℕ, List, [], ◌∷◌, ◌++◌, ◌==◌, if◌then◌else◌}
use Alu.{alu_matrix}
use Rest.{matrix}
use sys.Isa.Instr.{Instr, undocumented}

unfoldable pub row : ℕ → List (ℕ × Instr) → Instr
row n [] = undocumented
row n ((opcode, instr) ∷ rows) = if n == opcode then instr else row n rows

unfoldable pub decode : ℕ → Instr
unfolding row
decode n = row n (alu_matrix ++ matrix)
