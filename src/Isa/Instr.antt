-- ===== src/Isa/Instr.antt =====
-- The instructions and the addressing modes.
pub data Mode : Type 0 where
  immediate zero_page zero_page_x zero_page_y absolute absolute_x absolute_y indirect_x indirect_y :
      Mode

pub data BinaryOp : Type 0 where
  adc sbc and ora eor cmp cpx cpy bit : BinaryOp

pub data UnaryOp : Type 0 where
  asl lsr rol ror inc dec : UnaryOp

-- Where a one-operand instruction works.
pub data Place : Type 0 where
  accumulator : Place
  memory : Mode → Place

pub data Register : Type 0 where
  a x y : Register

pub data Condition : Type 0 where
  bpl bmi bvc bvs bcc bcs bne beq : Condition

pub data Implied : Type 0 where
  inx dex iny dey tax txa tay tya tsx txs clc sec cli sei clv cld sed nop : Implied

pub data Control : Type 0 where
  brk jsr rts rti jmp_absolute jmp_indirect pha php pla plp : Control

pub data Instr : Type 0 where
  binary : BinaryOp → Mode → Instr
  unary : UnaryOp → Place → Instr
  load : Register → Mode → Instr
  store : Register → Mode → Instr
  branch : Condition → Instr
  implied : Implied → Instr
  control : Control → Instr
  undocumented : Instr
