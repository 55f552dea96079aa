-- ===== src/Cpu/BinarySwitch.antt =====
-- src/cpu/cpu6502.cpp: the `case` labels of `applyBinaryAluOp` and `commitBinaryAluResult`.
use sys.Base.{ℕ, [], ◌∷◌, switch}
use sys.Cpu.Opcodes.{
  adc_absolute, adc_absolute_x, adc_absolute_y, adc_immediate, adc_indirect_x, adc_indirect_y,
  adc_zero_page, adc_zero_page_x, and_absolute, and_absolute_x, and_absolute_y, and_immediate,
  and_indirect_x, and_indirect_y, and_zero_page, and_zero_page_x, bit_absolute, bit_zero_page,
  cmp_absolute, cmp_absolute_x, cmp_absolute_y, cmp_immediate, cmp_indirect_x, cmp_indirect_y,
  cmp_zero_page, cmp_zero_page_x, cpx_absolute, cpx_immediate, cpx_zero_page, cpy_absolute,
  cpy_immediate, cpy_zero_page, eor_absolute, eor_absolute_x, eor_absolute_y, eor_immediate,
  eor_indirect_x, eor_indirect_y, eor_zero_page, eor_zero_page_x, ora_absolute, ora_absolute_x,
  ora_absolute_y, ora_immediate, ora_indirect_x, ora_indirect_y, ora_zero_page, ora_zero_page_x,
  sbc_absolute, sbc_absolute_x, sbc_absolute_y, sbc_immediate, sbc_indirect_x, sbc_indirect_y,
  sbc_zero_page, sbc_zero_page_x,
}

-- The groups of labels of `applyBinaryAluOp`, in order, and its `default`.
pub data BinaryCase : Type 0 where
  adc sbc and ora eor cmp cpx cpy bit other : BinaryCase

unfoldable pub apply_binary_case : ℕ → BinaryCase
unfolding switch
apply_binary_case ir = switch ir BinaryCase.other (
    (
      adc_immediate ∷ adc_zero_page ∷ adc_zero_page_x ∷ adc_absolute ∷ adc_absolute_x
          ∷ adc_absolute_y ∷ adc_indirect_x ∷ adc_indirect_y ∷ [],
      BinaryCase.adc,
    )
    ∷ (
      sbc_immediate ∷ sbc_zero_page ∷ sbc_zero_page_x ∷ sbc_absolute ∷ sbc_absolute_x
          ∷ sbc_absolute_y ∷ sbc_indirect_x ∷ sbc_indirect_y ∷ [],
      BinaryCase.sbc,
    )
    ∷ (
      and_immediate ∷ and_zero_page ∷ and_zero_page_x ∷ and_absolute ∷ and_absolute_x
          ∷ and_absolute_y ∷ and_indirect_x ∷ and_indirect_y ∷ [],
      BinaryCase.and,
    )
    ∷ (
      ora_immediate ∷ ora_zero_page ∷ ora_zero_page_x ∷ ora_absolute ∷ ora_absolute_x
          ∷ ora_absolute_y ∷ ora_indirect_x ∷ ora_indirect_y ∷ [],
      BinaryCase.ora,
    )
    ∷ (
      eor_immediate ∷ eor_zero_page ∷ eor_zero_page_x ∷ eor_absolute ∷ eor_absolute_x
          ∷ eor_absolute_y ∷ eor_indirect_x ∷ eor_indirect_y ∷ [],
      BinaryCase.eor,
    )
    ∷ (
      cmp_immediate ∷ cmp_zero_page ∷ cmp_zero_page_x ∷ cmp_absolute ∷ cmp_absolute_x
          ∷ cmp_absolute_y ∷ cmp_indirect_x ∷ cmp_indirect_y ∷ [],
      BinaryCase.cmp,
    )
    ∷ (cpx_immediate ∷ cpx_zero_page ∷ cpx_absolute ∷ [], BinaryCase.cpx)
    ∷ (cpy_immediate ∷ cpy_zero_page ∷ cpy_absolute ∷ [], BinaryCase.cpy)
    ∷ (bit_zero_page ∷ bit_absolute ∷ [], BinaryCase.bit)
    ∷ [])

-- The groups of labels of `commitBinaryAluResult`, in order, and its `default`.
pub data ResultCase : Type 0 where
  arithmetic logical compare bit other : ResultCase

unfoldable pub commit_binary_case : ℕ → ResultCase
unfolding switch
commit_binary_case ir = switch ir ResultCase.other (
    (
      adc_immediate ∷ adc_zero_page ∷ adc_zero_page_x ∷ adc_absolute ∷ adc_absolute_x
          ∷ adc_absolute_y ∷ adc_indirect_x ∷ adc_indirect_y ∷ sbc_immediate ∷ sbc_zero_page
          ∷ sbc_zero_page_x ∷ sbc_absolute ∷ sbc_absolute_x ∷ sbc_absolute_y ∷ sbc_indirect_x
          ∷ sbc_indirect_y ∷ [],
      ResultCase.arithmetic,
    )
    ∷ (
      and_immediate ∷ and_zero_page ∷ and_zero_page_x ∷ and_absolute ∷ and_absolute_x
          ∷ and_absolute_y ∷ and_indirect_x ∷ and_indirect_y ∷ ora_immediate ∷ ora_zero_page
          ∷ ora_zero_page_x ∷ ora_absolute ∷ ora_absolute_x ∷ ora_absolute_y ∷ ora_indirect_x
          ∷ ora_indirect_y ∷ eor_immediate ∷ eor_zero_page ∷ eor_zero_page_x ∷ eor_absolute
          ∷ eor_absolute_x ∷ eor_absolute_y ∷ eor_indirect_x ∷ eor_indirect_y ∷ [],
      ResultCase.logical,
    )
    ∷ (
      cmp_immediate ∷ cmp_zero_page ∷ cmp_zero_page_x ∷ cmp_absolute ∷ cmp_absolute_x
          ∷ cmp_absolute_y ∷ cmp_indirect_x ∷ cmp_indirect_y ∷ cpx_immediate ∷ cpx_zero_page
          ∷ cpx_absolute ∷ cpy_immediate ∷ cpy_zero_page ∷ cpy_absolute ∷ [],
      ResultCase.compare,
    )
    ∷ (bit_zero_page ∷ bit_absolute ∷ [], ResultCase.bit)
    ∷ [])
