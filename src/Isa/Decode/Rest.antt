-- ===== src/Isa/Decode/Rest.antt =====
-- docs/6502-manual.md: the opcode matrix, row by row: loads, stores, and all others.
use sys.Base.{ℕ, List, [], ◌∷◌}
use sys.Isa.Instr.{
  Mode, Register, Condition, Implied, Control, Instr, load, store, branch, implied, control,
}

abbrev pub matrix : List (ℕ × Instr)
matrix =
    (0xE8, implied Implied.inx)
    ∷ (0xCA, implied Implied.dex)
    ∷ (0xC8, implied Implied.iny)
    ∷ (0x88, implied Implied.dey)
    ∷ (0xAA, implied Implied.tax)
    ∷ (0x8A, implied Implied.txa)
    ∷ (0xA8, implied Implied.tay)
    ∷ (0x98, implied Implied.tya)
    ∷ (0xBA, implied Implied.tsx)
    ∷ (0x9A, implied Implied.txs)
    ∷ (0xA9, load Register.a Mode.immediate)
    ∷ (0xA5, load Register.a Mode.zero_page)
    ∷ (0xB5, load Register.a Mode.zero_page_x)
    ∷ (0xAD, load Register.a Mode.absolute)
    ∷ (0xBD, load Register.a Mode.absolute_x)
    ∷ (0xB9, load Register.a Mode.absolute_y)
    ∷ (0xA1, load Register.a Mode.indirect_x)
    ∷ (0xB1, load Register.a Mode.indirect_y)
    ∷ (0xA2, load Register.x Mode.immediate)
    ∷ (0xA6, load Register.x Mode.zero_page)
    ∷ (0xB6, load Register.x Mode.zero_page_y)
    ∷ (0xAE, load Register.x Mode.absolute)
    ∷ (0xBE, load Register.x Mode.absolute_y)
    ∷ (0xA0, load Register.y Mode.immediate)
    ∷ (0xA4, load Register.y Mode.zero_page)
    ∷ (0xB4, load Register.y Mode.zero_page_x)
    ∷ (0xAC, load Register.y Mode.absolute)
    ∷ (0xBC, load Register.y Mode.absolute_x)
    ∷ (0x85, store Register.a Mode.zero_page)
    ∷ (0x95, store Register.a Mode.zero_page_x)
    ∷ (0x8D, store Register.a Mode.absolute)
    ∷ (0x9D, store Register.a Mode.absolute_x)
    ∷ (0x99, store Register.a Mode.absolute_y)
    ∷ (0x81, store Register.a Mode.indirect_x)
    ∷ (0x91, store Register.a Mode.indirect_y)
    ∷ (0x86, store Register.x Mode.zero_page)
    ∷ (0x96, store Register.x Mode.zero_page_y)
    ∷ (0x8E, store Register.x Mode.absolute)
    ∷ (0x84, store Register.y Mode.zero_page)
    ∷ (0x94, store Register.y Mode.zero_page_x)
    ∷ (0x8C, store Register.y Mode.absolute)
    ∷ (0x10, branch Condition.bpl)
    ∷ (0x30, branch Condition.bmi)
    ∷ (0x50, branch Condition.bvc)
    ∷ (0x70, branch Condition.bvs)
    ∷ (0x90, branch Condition.bcc)
    ∷ (0xB0, branch Condition.bcs)
    ∷ (0xD0, branch Condition.bne)
    ∷ (0xF0, branch Condition.beq)
    ∷ (0x18, implied Implied.clc)
    ∷ (0x38, implied Implied.sec)
    ∷ (0x58, implied Implied.cli)
    ∷ (0x78, implied Implied.sei)
    ∷ (0xB8, implied Implied.clv)
    ∷ (0xD8, implied Implied.cld)
    ∷ (0xF8, implied Implied.sed)
    ∷ (0x00, control Control.brk)
    ∷ (0x20, control Control.jsr)
    ∷ (0x60, control Control.rts)
    ∷ (0x4C, control Control.jmp_absolute)
    ∷ (0x6C, control Control.jmp_indirect)
    ∷ (0x48, control Control.pha)
    ∷ (0x68, control Control.pla)
    ∷ (0x08, control Control.php)
    ∷ (0x28, control Control.plp)
    ∷ (0x40, control Control.rti)
    ∷ (0xEA, implied Implied.nop)
    ∷ []
