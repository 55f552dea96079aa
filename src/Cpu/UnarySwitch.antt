-- ===== src/Cpu/UnarySwitch.antt =====
-- src/cpu/cpu6502.cpp: the `case` labels of `applyUnaryAluOp` and `commitUnaryAluFlags`.
use sys.Base.{ℕ, [], ◌∷◌, switch}
use sys.Cpu.Opcodes.{
  asl_absolute, asl_absolute_x, asl_accumulator, asl_zero_page, asl_zero_page_x, dec_absolute,
  dec_absolute_x, dec_zero_page, dec_zero_page_x, inc_absolute, inc_absolute_x, inc_zero_page,
  inc_zero_page_x, lsr_absolute, lsr_absolute_x, lsr_accumulator, lsr_zero_page, lsr_zero_page_x,
  rol_absolute, rol_absolute_x, rol_accumulator, rol_zero_page, rol_zero_page_x, ror_absolute,
  ror_absolute_x, ror_accumulator, ror_zero_page, ror_zero_page_x,
}

-- The groups of labels of `applyUnaryAluOp`, in order, and its `default`.
pub data UnaryCase : Type 0 where
  asl lsr rol ror inc dec other : UnaryCase

unfoldable pub apply_unary_case : ℕ → UnaryCase
unfolding switch
apply_unary_case ir = switch ir UnaryCase.other (
    (
      asl_accumulator ∷ asl_zero_page ∷ asl_zero_page_x ∷ asl_absolute ∷ asl_absolute_x ∷ [],
      UnaryCase.asl,
    )
    ∷ (
      lsr_accumulator ∷ lsr_zero_page ∷ lsr_zero_page_x ∷ lsr_absolute ∷ lsr_absolute_x ∷ [],
      UnaryCase.lsr,
    )
    ∷ (
      rol_accumulator ∷ rol_zero_page ∷ rol_zero_page_x ∷ rol_absolute ∷ rol_absolute_x ∷ [],
      UnaryCase.rol,
    )
    ∷ (
      ror_accumulator ∷ ror_zero_page ∷ ror_zero_page_x ∷ ror_absolute ∷ ror_absolute_x ∷ [],
      UnaryCase.ror,
    )
    ∷ (inc_zero_page ∷ inc_zero_page_x ∷ inc_absolute ∷ inc_absolute_x ∷ [], UnaryCase.inc)
    ∷ (dec_zero_page ∷ dec_zero_page_x ∷ dec_absolute ∷ dec_absolute_x ∷ [], UnaryCase.dec)
    ∷ [])

-- The groups of labels of `commitUnaryAluFlags`, in order, and its `default`.
pub data UnaryResultCase : Type 0 where
  shift count other : UnaryResultCase

unfoldable pub commit_unary_case : ℕ → UnaryResultCase
unfolding switch
commit_unary_case ir = switch ir UnaryResultCase.other (
    (
      asl_accumulator ∷ asl_zero_page ∷ asl_zero_page_x ∷ asl_absolute ∷ asl_absolute_x
          ∷ lsr_accumulator ∷ lsr_zero_page ∷ lsr_zero_page_x ∷ lsr_absolute ∷ lsr_absolute_x
          ∷ rol_accumulator ∷ rol_zero_page ∷ rol_zero_page_x ∷ rol_absolute ∷ rol_absolute_x
          ∷ ror_accumulator ∷ ror_zero_page ∷ ror_zero_page_x ∷ ror_absolute ∷ ror_absolute_x ∷ [],
      UnaryResultCase.shift,
    )
    ∷ (
      inc_zero_page ∷ inc_zero_page_x ∷ inc_absolute ∷ inc_absolute_x ∷ dec_zero_page
          ∷ dec_zero_page_x ∷ dec_absolute ∷ dec_absolute_x ∷ [],
      UnaryResultCase.count,
    )
    ∷ [])
