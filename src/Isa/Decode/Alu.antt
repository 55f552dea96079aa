-- ===== src/Isa/Decode/Alu.antt =====
-- docs/6502-manual.md: the opcode matrix, row by row: the instructions of the ALU.
use sys.Base.{ℕ, List, [], ◌∷◌}
use sys.Isa.Instr.{Mode, BinaryOp, UnaryOp, Instr, accumulator, memory, binary, unary}

abbrev pub alu_matrix : List (ℕ × Instr)
alu_matrix =
    (0x69, binary BinaryOp.adc Mode.immediate)
    ∷ (0x65, binary BinaryOp.adc Mode.zero_page)
    ∷ (0x75, binary BinaryOp.adc Mode.zero_page_x)
    ∷ (0x6D, binary BinaryOp.adc Mode.absolute)
    ∷ (0x7D, binary BinaryOp.adc Mode.absolute_x)
    ∷ (0x79, binary BinaryOp.adc Mode.absolute_y)
    ∷ (0x61, binary BinaryOp.adc Mode.indirect_x)
    ∷ (0x71, binary BinaryOp.adc Mode.indirect_y)
    ∷ (0xE9, binary BinaryOp.sbc Mode.immediate)
    ∷ (0xE5, binary BinaryOp.sbc Mode.zero_page)
    ∷ (0xF5, binary BinaryOp.sbc Mode.zero_page_x)
    ∷ (0xED, binary BinaryOp.sbc Mode.absolute)
    ∷ (0xFD, binary BinaryOp.sbc Mode.absolute_x)
    ∷ (0xF9, binary BinaryOp.sbc Mode.absolute_y)
    ∷ (0xE1, binary BinaryOp.sbc Mode.indirect_x)
    ∷ (0xF1, binary BinaryOp.sbc Mode.indirect_y)
    ∷ (0x29, binary BinaryOp.and Mode.immediate)
    ∷ (0x25, binary BinaryOp.and Mode.zero_page)
    ∷ (0x35, binary BinaryOp.and Mode.zero_page_x)
    ∷ (0x2D, binary BinaryOp.and Mode.absolute)
    ∷ (0x3D, binary BinaryOp.and Mode.absolute_x)
    ∷ (0x39, binary BinaryOp.and Mode.absolute_y)
    ∷ (0x21, binary BinaryOp.and Mode.indirect_x)
    ∷ (0x31, binary BinaryOp.and Mode.indirect_y)
    ∷ (0x09, binary BinaryOp.ora Mode.immediate)
    ∷ (0x05, binary BinaryOp.ora Mode.zero_page)
    ∷ (0x15, binary BinaryOp.ora Mode.zero_page_x)
    ∷ (0x0D, binary BinaryOp.ora Mode.absolute)
    ∷ (0x1D, binary BinaryOp.ora Mode.absolute_x)
    ∷ (0x19, binary BinaryOp.ora Mode.absolute_y)
    ∷ (0x01, binary BinaryOp.ora Mode.indirect_x)
    ∷ (0x11, binary BinaryOp.ora Mode.indirect_y)
    ∷ (0x49, binary BinaryOp.eor Mode.immediate)
    ∷ (0x45, binary BinaryOp.eor Mode.zero_page)
    ∷ (0x55, binary BinaryOp.eor Mode.zero_page_x)
    ∷ (0x4D, binary BinaryOp.eor Mode.absolute)
    ∷ (0x5D, binary BinaryOp.eor Mode.absolute_x)
    ∷ (0x59, binary BinaryOp.eor Mode.absolute_y)
    ∷ (0x41, binary BinaryOp.eor Mode.indirect_x)
    ∷ (0x51, binary BinaryOp.eor Mode.indirect_y)
    ∷ (0xC9, binary BinaryOp.cmp Mode.immediate)
    ∷ (0xC5, binary BinaryOp.cmp Mode.zero_page)
    ∷ (0xD5, binary BinaryOp.cmp Mode.zero_page_x)
    ∷ (0xCD, binary BinaryOp.cmp Mode.absolute)
    ∷ (0xDD, binary BinaryOp.cmp Mode.absolute_x)
    ∷ (0xD9, binary BinaryOp.cmp Mode.absolute_y)
    ∷ (0xC1, binary BinaryOp.cmp Mode.indirect_x)
    ∷ (0xD1, binary BinaryOp.cmp Mode.indirect_y)
    ∷ (0xE0, binary BinaryOp.cpx Mode.immediate)
    ∷ (0xE4, binary BinaryOp.cpx Mode.zero_page)
    ∷ (0xEC, binary BinaryOp.cpx Mode.absolute)
    ∷ (0xC0, binary BinaryOp.cpy Mode.immediate)
    ∷ (0xC4, binary BinaryOp.cpy Mode.zero_page)
    ∷ (0xCC, binary BinaryOp.cpy Mode.absolute)
    ∷ (0x0A, unary UnaryOp.asl accumulator)
    ∷ (0x06, unary UnaryOp.asl (memory Mode.zero_page))
    ∷ (0x16, unary UnaryOp.asl (memory Mode.zero_page_x))
    ∷ (0x0E, unary UnaryOp.asl (memory Mode.absolute))
    ∷ (0x1E, unary UnaryOp.asl (memory Mode.absolute_x))
    ∷ (0x4A, unary UnaryOp.lsr accumulator)
    ∷ (0x46, unary UnaryOp.lsr (memory Mode.zero_page))
    ∷ (0x56, unary UnaryOp.lsr (memory Mode.zero_page_x))
    ∷ (0x4E, unary UnaryOp.lsr (memory Mode.absolute))
    ∷ (0x5E, unary UnaryOp.lsr (memory Mode.absolute_x))
    ∷ (0x2A, unary UnaryOp.rol accumulator)
    ∷ (0x26, unary UnaryOp.rol (memory Mode.zero_page))
    ∷ (0x36, unary UnaryOp.rol (memory Mode.zero_page_x))
    ∷ (0x2E, unary UnaryOp.rol (memory Mode.absolute))
    ∷ (0x3E, unary UnaryOp.rol (memory Mode.absolute_x))
    ∷ (0x6A, unary UnaryOp.ror accumulator)
    ∷ (0x66, unary UnaryOp.ror (memory Mode.zero_page))
    ∷ (0x76, unary UnaryOp.ror (memory Mode.zero_page_x))
    ∷ (0x6E, unary UnaryOp.ror (memory Mode.absolute))
    ∷ (0x7E, unary UnaryOp.ror (memory Mode.absolute_x))
    ∷ (0xE6, unary UnaryOp.inc (memory Mode.zero_page))
    ∷ (0xF6, unary UnaryOp.inc (memory Mode.zero_page_x))
    ∷ (0xEE, unary UnaryOp.inc (memory Mode.absolute))
    ∷ (0xFE, unary UnaryOp.inc (memory Mode.absolute_x))
    ∷ (0xC6, unary UnaryOp.dec (memory Mode.zero_page))
    ∷ (0xD6, unary UnaryOp.dec (memory Mode.zero_page_x))
    ∷ (0xCE, unary UnaryOp.dec (memory Mode.absolute))
    ∷ (0xDE, unary UnaryOp.dec (memory Mode.absolute_x))
    ∷ (0x24, binary BinaryOp.bit Mode.zero_page)
    ∷ (0x2C, binary BinaryOp.bit Mode.absolute)
    ∷ []
