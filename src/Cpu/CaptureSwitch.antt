-- ===== src/Cpu/CaptureSwitch.antt =====
-- src/cpu/cpu6502.cpp: the `case` labels of `onClockHigh` and the handler each group calls.
use sys.Base.{ℕ, [], ◌∷◌, switch}
use sys.Cpu.Handler.{Handler}
use sys.Cpu.Opcodes.{
  adc_absolute, adc_absolute_x, adc_absolute_y, adc_immediate, adc_indirect_x, adc_indirect_y,
  adc_zero_page, adc_zero_page_x, and_absolute, and_absolute_x, and_absolute_y, and_immediate,
  and_indirect_x, and_indirect_y, and_zero_page, and_zero_page_x, asl_absolute, asl_absolute_x,
  asl_accumulator, asl_zero_page, asl_zero_page_x, bcc, bcs, beq, bit_absolute, bit_zero_page, bmi,
  bne, bpl, brk, bvc, bvs, clc, cld, cli, clv, cmp_absolute, cmp_absolute_x, cmp_absolute_y,
  cmp_immediate, cmp_indirect_x, cmp_indirect_y, cmp_zero_page, cmp_zero_page_x, cpx_absolute,
  cpx_immediate, cpx_zero_page, cpy_absolute, cpy_immediate, cpy_zero_page, dec_absolute,
  dec_absolute_x, dec_zero_page, dec_zero_page_x, dex, dey, eor_absolute, eor_absolute_x,
  eor_absolute_y, eor_immediate, eor_indirect_x, eor_indirect_y, eor_zero_page, eor_zero_page_x,
  inc_absolute, inc_absolute_x, inc_zero_page, inc_zero_page_x, inx, iny, jmp_absolute,
  jmp_indirect, jsr, lda_absolute, lda_absolute_x, lda_absolute_y, lda_immediate, lda_indirect_x,
  lda_indirect_y, lda_zero_page, lda_zero_page_x, ldx_absolute, ldx_absolute_y, ldx_immediate,
  ldx_zero_page, ldx_zero_page_y, ldy_absolute, ldy_absolute_x, ldy_immediate, ldy_zero_page,
  ldy_zero_page_x, lsr_absolute, lsr_absolute_x, lsr_accumulator, lsr_zero_page, lsr_zero_page_x,
  nop, ora_absolute, ora_absolute_x, ora_absolute_y, ora_immediate, ora_indirect_x, ora_indirect_y,
  ora_zero_page, ora_zero_page_x, pha, php, pla, plp, rol_absolute, rol_absolute_x, rol_accumulator,
  rol_zero_page, rol_zero_page_x, ror_absolute, ror_absolute_x, ror_accumulator, ror_zero_page,
  ror_zero_page_x, rti, rts, sbc_absolute, sbc_absolute_x, sbc_absolute_y, sbc_immediate,
  sbc_indirect_x, sbc_indirect_y, sbc_zero_page, sbc_zero_page_x, sec, sed, sei, sta_absolute,
  sta_absolute_x, sta_absolute_y, sta_indirect_x, sta_indirect_y, sta_zero_page, sta_zero_page_x,
  stx_absolute, stx_zero_page, stx_zero_page_y, sty_absolute, sty_zero_page, sty_zero_page_x, tax,
  tay, tsx, txa, txs, tya,
}

unfoldable pub capture_case : ℕ → Handler
unfolding switch
capture_case ir = switch ir Handler.unimplemented (
    (
      adc_immediate ∷ sbc_immediate ∷ and_immediate ∷ ora_immediate ∷ eor_immediate ∷ cmp_immediate
          ∷ cpx_immediate ∷ cpy_immediate ∷ [],
      Handler.read_immediate,
    )
    ∷ (
      adc_absolute ∷ sbc_absolute ∷ and_absolute ∷ ora_absolute ∷ eor_absolute ∷ cmp_absolute
          ∷ cpx_absolute ∷ cpy_absolute ∷ bit_absolute ∷ [],
      Handler.read_absolute,
    )
    ∷ (
      adc_zero_page ∷ sbc_zero_page ∷ and_zero_page ∷ ora_zero_page ∷ eor_zero_page ∷ cmp_zero_page
          ∷ cpx_zero_page ∷ cpy_zero_page ∷ bit_zero_page ∷ [],
      Handler.read_zero_page,
    )
    ∷ (
      adc_zero_page_x ∷ sbc_zero_page_x ∷ and_zero_page_x ∷ ora_zero_page_x ∷ eor_zero_page_x
          ∷ cmp_zero_page_x ∷ [],
      Handler.read_zero_page_x,
    )
    ∷ (
      adc_absolute_x ∷ sbc_absolute_x ∷ and_absolute_x ∷ ora_absolute_x ∷ eor_absolute_x
          ∷ cmp_absolute_x ∷ [],
      Handler.read_absolute_x,
    )
    ∷ (
      adc_absolute_y ∷ sbc_absolute_y ∷ and_absolute_y ∷ ora_absolute_y ∷ eor_absolute_y
          ∷ cmp_absolute_y ∷ [],
      Handler.read_absolute_y,
    )
    ∷ (
      adc_indirect_x ∷ sbc_indirect_x ∷ and_indirect_x ∷ ora_indirect_x ∷ eor_indirect_x
          ∷ cmp_indirect_x ∷ [],
      Handler.read_indirect_x,
    )
    ∷ (
      adc_indirect_y ∷ sbc_indirect_y ∷ and_indirect_y ∷ ora_indirect_y ∷ eor_indirect_y
          ∷ cmp_indirect_y ∷ [],
      Handler.read_indirect_y,
    )
    ∷ (
      asl_accumulator ∷ lsr_accumulator ∷ rol_accumulator ∷ ror_accumulator ∷ [],
      Handler.shift_accumulator,
    )
    ∷ (
      asl_zero_page ∷ lsr_zero_page ∷ rol_zero_page ∷ ror_zero_page ∷ inc_zero_page ∷ dec_zero_page
          ∷ [],
      Handler.rmw_zero_page,
    )
    ∷ (
      asl_zero_page_x ∷ lsr_zero_page_x ∷ rol_zero_page_x ∷ ror_zero_page_x ∷ inc_zero_page_x
          ∷ dec_zero_page_x ∷ [],
      Handler.rmw_zero_page_x,
    )
    ∷ (
      asl_absolute ∷ lsr_absolute ∷ rol_absolute ∷ ror_absolute ∷ inc_absolute ∷ dec_absolute ∷ [],
      Handler.rmw_absolute,
    )
    ∷ (
      asl_absolute_x ∷ lsr_absolute_x ∷ rol_absolute_x ∷ ror_absolute_x ∷ inc_absolute_x
          ∷ dec_absolute_x ∷ [],
      Handler.rmw_absolute_x,
    )
    ∷ (inx ∷ dex ∷ iny ∷ dey ∷ [], Handler.implied_inc_dec)
    ∷ (tax ∷ txa ∷ tay ∷ tya ∷ tsx ∷ txs ∷ [], Handler.implied_transfer)
    ∷ (clc ∷ sec ∷ cli ∷ sei ∷ clv ∷ cld ∷ sed ∷ [], Handler.implied_flag_op)
    ∷ (lda_immediate ∷ ldx_immediate ∷ ldy_immediate ∷ [], Handler.load_immediate)
    ∷ (lda_zero_page ∷ ldx_zero_page ∷ ldy_zero_page ∷ [], Handler.load_zero_page)
    ∷ (lda_zero_page_x ∷ ldy_zero_page_x ∷ [], Handler.load_zero_page_x)
    ∷ (ldx_zero_page_y ∷ [], Handler.load_zero_page_y)
    ∷ (lda_absolute ∷ ldx_absolute ∷ ldy_absolute ∷ [], Handler.load_absolute)
    ∷ (lda_absolute_x ∷ ldy_absolute_x ∷ [], Handler.load_absolute_x)
    ∷ (lda_absolute_y ∷ ldx_absolute_y ∷ [], Handler.load_absolute_y)
    ∷ (lda_indirect_x ∷ [], Handler.load_indirect_x)
    ∷ (lda_indirect_y ∷ [], Handler.load_indirect_y)
    ∷ (sta_zero_page ∷ stx_zero_page ∷ sty_zero_page ∷ [], Handler.store_zero_page)
    ∷ (sta_zero_page_x ∷ sty_zero_page_x ∷ [], Handler.store_zero_page_x)
    ∷ (stx_zero_page_y ∷ [], Handler.store_zero_page_y)
    ∷ (sta_absolute ∷ stx_absolute ∷ sty_absolute ∷ [], Handler.store_absolute)
    ∷ (sta_absolute_x ∷ [], Handler.store_absolute_x)
    ∷ (sta_absolute_y ∷ [], Handler.store_absolute_y)
    ∷ (sta_indirect_x ∷ [], Handler.store_indirect_x)
    ∷ (sta_indirect_y ∷ [], Handler.store_indirect_y)
    ∷ (bpl ∷ bmi ∷ bvc ∷ bvs ∷ bcc ∷ bcs ∷ bne ∷ beq ∷ [], Handler.branch)
    ∷ (brk ∷ [], Handler.brk)
    ∷ (jsr ∷ [], Handler.jsr)
    ∷ (rts ∷ [], Handler.rts)
    ∷ (jmp_absolute ∷ [], Handler.jmp_absolute)
    ∷ (jmp_indirect ∷ [], Handler.jmp_indirect)
    ∷ (nop ∷ [], Handler.nop)
    ∷ (rti ∷ [], Handler.rti)
    ∷ (pha ∷ php ∷ [], Handler.implied_push)
    ∷ (pla ∷ plp ∷ [], Handler.implied_pull)
    ∷ [])
