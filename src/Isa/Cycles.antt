-- ===== src/Isa/Cycles.antt =====
-- docs/6502-manual.md: the cycles that an instruction takes.
use sys.Base.{ℕ}
use sys.Isa.Instr.{
  Instr, Mode, Control, accumulator, memory, binary, unary, load, store, branch, implied, control,
  undocumented,
}

-- A read through an addressing mode, without a page crossing.
unfoldable pub read_cycles : Mode → ℕ
read_cycles Mode.immediate = 2
read_cycles Mode.zero_page = 3
read_cycles Mode.zero_page_x = 4
read_cycles Mode.zero_page_y = 4
read_cycles Mode.absolute = 4
read_cycles Mode.absolute_x = 4
read_cycles Mode.absolute_y = 4
read_cycles Mode.indirect_x = 6
read_cycles Mode.indirect_y = 5

-- One more where an index can cross a page.
unfoldable pub read_extra : Mode → ℕ
read_extra Mode.absolute_x = 1
read_extra Mode.absolute_y = 1
read_extra Mode.indirect_y = 1
read_extra _ = 0

-- A store takes the longer time in any case.
unfoldable pub store_cycles : Mode → ℕ
store_cycles Mode.absolute_x = 5
store_cycles Mode.absolute_y = 5
store_cycles Mode.indirect_y = 6
store_cycles mode = read_cycles mode

-- A read, an idle cycle and the write; the index always costs its cycle.
unfoldable pub modify_cycles : Mode → ℕ
modify_cycles Mode.zero_page = 5
modify_cycles Mode.zero_page_x = 6
modify_cycles Mode.absolute = 6
modify_cycles _ = 7

unfoldable pub control_cycles : Control → ℕ
control_cycles Control.brk = 7
control_cycles Control.jsr = 6
control_cycles Control.rts = 6
control_cycles Control.rti = 6
control_cycles Control.jmp_absolute = 3
control_cycles Control.jmp_indirect = 5
control_cycles Control.pha = 3
control_cycles Control.php = 3
control_cycles Control.pla = 4
control_cycles Control.plp = 4

unfoldable pub base_cycles : Instr → ℕ
unfolding read_cycles store_cycles modify_cycles control_cycles
base_cycles (binary op mode) = read_cycles mode
base_cycles (unary op accumulator) = 2
base_cycles (unary op (memory mode)) = modify_cycles mode
base_cycles (load reg mode) = read_cycles mode
base_cycles (store reg mode) = store_cycles mode
base_cycles (branch cond) = 2
base_cycles (implied op) = 2
base_cycles (control op) = control_cycles op
base_cycles undocumented = 2

-- At most so many more: a page crossing, or a branch that is taken and crosses a page.
unfoldable pub extra_cycles : Instr → ℕ
unfolding read_extra
extra_cycles (binary op mode) = read_extra mode
extra_cycles (load reg mode) = read_extra mode
extra_cycles (branch cond) = 2
extra_cycles _ = 0
