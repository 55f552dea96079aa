-- ===== src/Cpu/Opcodes/Implied.antt =====
-- The opcode constants of src/cpu/cpu6502.cpp: implied, stack, flag, branch and jump instructions.
use sys.Base.{ℕ}

abbrev pub brk : ℕ
brk = 0x00

abbrev pub jsr : ℕ
jsr = 0x20

abbrev pub rts : ℕ
rts = 0x60

abbrev pub jmp_absolute : ℕ
jmp_absolute = 0x4C

abbrev pub jmp_indirect : ℕ
jmp_indirect = 0x6C

abbrev pub nop : ℕ
nop = 0xEA

abbrev pub rti : ℕ
rti = 0x40

abbrev pub php : ℕ
php = 0x08

abbrev pub pha : ℕ
pha = 0x48

abbrev pub plp : ℕ
plp = 0x28

abbrev pub pla : ℕ
pla = 0x68

abbrev pub inx : ℕ
inx = 0xE8

abbrev pub dex : ℕ
dex = 0xCA

abbrev pub iny : ℕ
iny = 0xC8

abbrev pub dey : ℕ
dey = 0x88

abbrev pub tax : ℕ
tax = 0xAA

abbrev pub txa : ℕ
txa = 0x8A

abbrev pub tay : ℕ
tay = 0xA8

abbrev pub tya : ℕ
tya = 0x98

abbrev pub tsx : ℕ
tsx = 0xBA

abbrev pub txs : ℕ
txs = 0x9A

abbrev pub bpl : ℕ
bpl = 0x10

abbrev pub bmi : ℕ
bmi = 0x30

abbrev pub bvc : ℕ
bvc = 0x50

abbrev pub bvs : ℕ
bvs = 0x70

abbrev pub bcc : ℕ
bcc = 0x90

abbrev pub bcs : ℕ
bcs = 0xB0

abbrev pub bne : ℕ
bne = 0xD0

abbrev pub beq : ℕ
beq = 0xF0

abbrev pub clc : ℕ
clc = 0x18

abbrev pub sec : ℕ
sec = 0x38

abbrev pub cli : ℕ
cli = 0x58

abbrev pub sei : ℕ
sei = 0x78

abbrev pub clv : ℕ
clv = 0xB8

abbrev pub cld : ℕ
cld = 0xD8

abbrev pub sed : ℕ
sed = 0xF8
