-- ===== src/Cpu/MoveSwitch.antt =====
-- src/cpu/cpu6502.cpp: the `case` labels of `commitLoadResult` and `storeSourceValue`.
use sys.Base.{ℕ, [], ◌∷◌, switch}
use sys.Cpu.Opcodes.{
  lda_absolute, lda_absolute_x, lda_absolute_y, lda_immediate, lda_indirect_x, lda_indirect_y,
  lda_zero_page, lda_zero_page_x, ldx_absolute, ldx_absolute_y, ldx_immediate, ldx_zero_page,
  ldx_zero_page_y, ldy_absolute, ldy_absolute_x, ldy_immediate, ldy_zero_page, ldy_zero_page_x,
  sta_absolute, sta_absolute_x, sta_absolute_y, sta_indirect_x, sta_indirect_y, sta_zero_page,
  sta_zero_page_x, stx_absolute, stx_zero_page, stx_zero_page_y, sty_absolute, sty_zero_page,
  sty_zero_page_x,
}

-- The register that a group of labels names, and the `default`.
pub data RegisterCase : Type 0 where
  a x y other : RegisterCase

unfoldable pub load_case : ℕ → RegisterCase
unfolding switch
load_case ir = switch ir RegisterCase.other (
    (
      lda_immediate ∷ lda_zero_page ∷ lda_zero_page_x ∷ lda_absolute ∷ lda_absolute_x
          ∷ lda_absolute_y ∷ lda_indirect_x ∷ lda_indirect_y ∷ [],
      RegisterCase.a,
    )
    ∷ (
      ldx_immediate ∷ ldx_zero_page ∷ ldx_zero_page_y ∷ ldx_absolute ∷ ldx_absolute_y ∷ [],
      RegisterCase.x,
    )
    ∷ (
      ldy_immediate ∷ ldy_zero_page ∷ ldy_zero_page_x ∷ ldy_absolute ∷ ldy_absolute_x ∷ [],
      RegisterCase.y,
    )
    ∷ [])

unfoldable pub store_case : ℕ → RegisterCase
unfolding switch
store_case ir = switch ir RegisterCase.other (
    (
      sta_zero_page ∷ sta_zero_page_x ∷ sta_absolute ∷ sta_absolute_x ∷ sta_absolute_y
          ∷ sta_indirect_x ∷ sta_indirect_y ∷ [],
      RegisterCase.a,
    )
    ∷ (stx_zero_page ∷ stx_zero_page_y ∷ stx_absolute ∷ [], RegisterCase.x)
    ∷ (sty_zero_page ∷ sty_zero_page_x ∷ sty_absolute ∷ [], RegisterCase.y)
    ∷ [])
