-- ===== src/Cpu/Opcodes/Binary.antt =====
-- The opcode constants of src/cpu/cpu6502.cpp: arithmetic, logic, compare and BIT.
use sys.Base.{ℕ}

abbrev pub adc_immediate : ℕ
adc_immediate = 0x69

abbrev pub adc_absolute : ℕ
adc_absolute = 0x6D

abbrev pub adc_zero_page : ℕ
adc_zero_page = 0x65

abbrev pub adc_zero_page_x : ℕ
adc_zero_page_x = 0x75

abbrev pub adc_absolute_x : ℕ
adc_absolute_x = 0x7D

abbrev pub adc_absolute_y : ℕ
adc_absolute_y = 0x79

abbrev pub adc_indirect_x : ℕ
adc_indirect_x = 0x61

abbrev pub adc_indirect_y : ℕ
adc_indirect_y = 0x71

abbrev pub sbc_immediate : ℕ
sbc_immediate = 0xE9

abbrev pub sbc_zero_page : ℕ
sbc_zero_page = 0xE5

abbrev pub sbc_zero_page_x : ℕ
sbc_zero_page_x = 0xF5

abbrev pub sbc_absolute : ℕ
sbc_absolute = 0xED

abbrev pub sbc_absolute_x : ℕ
sbc_absolute_x = 0xFD

abbrev pub sbc_absolute_y : ℕ
sbc_absolute_y = 0xF9

abbrev pub sbc_indirect_x : ℕ
sbc_indirect_x = 0xE1

abbrev pub sbc_indirect_y : ℕ
sbc_indirect_y = 0xF1

abbrev pub and_immediate : ℕ
and_immediate = 0x29

abbrev pub and_zero_page : ℕ
and_zero_page = 0x25

abbrev pub and_zero_page_x : ℕ
and_zero_page_x = 0x35

abbrev pub and_absolute : ℕ
and_absolute = 0x2D

abbrev pub and_absolute_x : ℕ
and_absolute_x = 0x3D

abbrev pub and_absolute_y : ℕ
and_absolute_y = 0x39

abbrev pub and_indirect_x : ℕ
and_indirect_x = 0x21

abbrev pub and_indirect_y : ℕ
and_indirect_y = 0x31

abbrev pub ora_immediate : ℕ
ora_immediate = 0x09

abbrev pub ora_zero_page : ℕ
ora_zero_page = 0x05

abbrev pub ora_zero_page_x : ℕ
ora_zero_page_x = 0x15

abbrev pub ora_absolute : ℕ
ora_absolute = 0x0D

abbrev pub ora_absolute_x : ℕ
ora_absolute_x = 0x1D

abbrev pub ora_absolute_y : ℕ
ora_absolute_y = 0x19

abbrev pub ora_indirect_x : ℕ
ora_indirect_x = 0x01

abbrev pub ora_indirect_y : ℕ
ora_indirect_y = 0x11

abbrev pub eor_immediate : ℕ
eor_immediate = 0x49

abbrev pub eor_zero_page : ℕ
eor_zero_page = 0x45

abbrev pub eor_zero_page_x : ℕ
eor_zero_page_x = 0x55

abbrev pub eor_absolute : ℕ
eor_absolute = 0x4D

abbrev pub eor_absolute_x : ℕ
eor_absolute_x = 0x5D

abbrev pub eor_absolute_y : ℕ
eor_absolute_y = 0x59

abbrev pub eor_indirect_x : ℕ
eor_indirect_x = 0x41

abbrev pub eor_indirect_y : ℕ
eor_indirect_y = 0x51

abbrev pub cmp_immediate : ℕ
cmp_immediate = 0xC9

abbrev pub cmp_zero_page : ℕ
cmp_zero_page = 0xC5

abbrev pub cmp_zero_page_x : ℕ
cmp_zero_page_x = 0xD5

abbrev pub cmp_absolute : ℕ
cmp_absolute = 0xCD

abbrev pub cmp_absolute_x : ℕ
cmp_absolute_x = 0xDD

abbrev pub cmp_absolute_y : ℕ
cmp_absolute_y = 0xD9

abbrev pub cmp_indirect_x : ℕ
cmp_indirect_x = 0xC1

abbrev pub cmp_indirect_y : ℕ
cmp_indirect_y = 0xD1

abbrev pub cpx_immediate : ℕ
cpx_immediate = 0xE0

abbrev pub cpx_zero_page : ℕ
cpx_zero_page = 0xE4

abbrev pub cpx_absolute : ℕ
cpx_absolute = 0xEC

abbrev pub cpy_immediate : ℕ
cpy_immediate = 0xC0

abbrev pub cpy_zero_page : ℕ
cpy_zero_page = 0xC4

abbrev pub cpy_absolute : ℕ
cpy_absolute = 0xCC

abbrev pub bit_zero_page : ℕ
bit_zero_page = 0x24

abbrev pub bit_absolute : ℕ
bit_absolute = 0x2C
