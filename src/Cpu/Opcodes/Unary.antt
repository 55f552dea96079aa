-- ===== src/Cpu/Opcodes/Unary.antt =====
-- The opcode constants of src/cpu/cpu6502.cpp: shifts, rotates, INC and DEC.
use sys.Base.{ℕ}

abbrev pub asl_accumulator : ℕ
asl_accumulator = 0x0A

abbrev pub asl_zero_page : ℕ
asl_zero_page = 0x06

abbrev pub asl_zero_page_x : ℕ
asl_zero_page_x = 0x16

abbrev pub asl_absolute : ℕ
asl_absolute = 0x0E

abbrev pub asl_absolute_x : ℕ
asl_absolute_x = 0x1E

abbrev pub lsr_accumulator : ℕ
lsr_accumulator = 0x4A

abbrev pub lsr_zero_page : ℕ
lsr_zero_page = 0x46

abbrev pub lsr_zero_page_x : ℕ
lsr_zero_page_x = 0x56

abbrev pub lsr_absolute : ℕ
lsr_absolute = 0x4E

abbrev pub lsr_absolute_x : ℕ
lsr_absolute_x = 0x5E

abbrev pub rol_accumulator : ℕ
rol_accumulator = 0x2A

abbrev pub rol_zero_page : ℕ
rol_zero_page = 0x26

abbrev pub rol_zero_page_x : ℕ
rol_zero_page_x = 0x36

abbrev pub rol_absolute : ℕ
rol_absolute = 0x2E

abbrev pub rol_absolute_x : ℕ
rol_absolute_x = 0x3E

abbrev pub ror_accumulator : ℕ
ror_accumulator = 0x6A

abbrev pub ror_zero_page : ℕ
ror_zero_page = 0x66

abbrev pub ror_zero_page_x : ℕ
ror_zero_page_x = 0x76

abbrev pub ror_absolute : ℕ
ror_absolute = 0x6E

abbrev pub ror_absolute_x : ℕ
ror_absolute_x = 0x7E

abbrev pub inc_zero_page : ℕ
inc_zero_page = 0xE6

abbrev pub inc_zero_page_x : ℕ
inc_zero_page_x = 0xF6

abbrev pub inc_absolute : ℕ
inc_absolute = 0xEE

abbrev pub inc_absolute_x : ℕ
inc_absolute_x = 0xFE

abbrev pub dec_zero_page : ℕ
dec_zero_page = 0xC6

abbrev pub dec_zero_page_x : ℕ
dec_zero_page_x = 0xD6

abbrev pub dec_absolute : ℕ
dec_absolute = 0xCE

abbrev pub dec_absolute_x : ℕ
dec_absolute_x = 0xDE
