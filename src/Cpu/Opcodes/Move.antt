-- ===== src/Cpu/Opcodes/Move.antt =====
-- The opcode constants of src/cpu/cpu6502.cpp: loads and stores.
use sys.Base.{ℕ}

abbrev pub lda_immediate : ℕ
lda_immediate = 0xA9

abbrev pub lda_zero_page : ℕ
lda_zero_page = 0xA5

abbrev pub lda_zero_page_x : ℕ
lda_zero_page_x = 0xB5

abbrev pub lda_absolute : ℕ
lda_absolute = 0xAD

abbrev pub lda_absolute_x : ℕ
lda_absolute_x = 0xBD

abbrev pub lda_absolute_y : ℕ
lda_absolute_y = 0xB9

abbrev pub lda_indirect_x : ℕ
lda_indirect_x = 0xA1

abbrev pub lda_indirect_y : ℕ
lda_indirect_y = 0xB1

abbrev pub ldx_immediate : ℕ
ldx_immediate = 0xA2

abbrev pub ldx_zero_page : ℕ
ldx_zero_page = 0xA6

abbrev pub ldx_zero_page_y : ℕ
ldx_zero_page_y = 0xB6

abbrev pub ldx_absolute : ℕ
ldx_absolute = 0xAE

abbrev pub ldx_absolute_y : ℕ
ldx_absolute_y = 0xBE

abbrev pub ldy_immediate : ℕ
ldy_immediate = 0xA0

abbrev pub ldy_zero_page : ℕ
ldy_zero_page = 0xA4

abbrev pub ldy_zero_page_x : ℕ
ldy_zero_page_x = 0xB4

abbrev pub ldy_absolute : ℕ
ldy_absolute = 0xAC

abbrev pub ldy_absolute_x : ℕ
ldy_absolute_x = 0xBC

abbrev pub sta_zero_page : ℕ
sta_zero_page = 0x85

abbrev pub sta_zero_page_x : ℕ
sta_zero_page_x = 0x95

abbrev pub sta_absolute : ℕ
sta_absolute = 0x8D

abbrev pub sta_absolute_x : ℕ
sta_absolute_x = 0x9D

abbrev pub sta_absolute_y : ℕ
sta_absolute_y = 0x99

abbrev pub sta_indirect_x : ℕ
sta_indirect_x = 0x81

abbrev pub sta_indirect_y : ℕ
sta_indirect_y = 0x91

abbrev pub stx_zero_page : ℕ
stx_zero_page = 0x86

abbrev pub stx_zero_page_y : ℕ
stx_zero_page_y = 0x96

abbrev pub stx_absolute : ℕ
stx_absolute = 0x8E

abbrev pub sty_zero_page : ℕ
sty_zero_page = 0x84

abbrev pub sty_zero_page_x : ℕ
sty_zero_page_x = 0x94

abbrev pub sty_absolute : ℕ
sty_absolute = 0x8C
