-- ===== src/Isa.antt =====
-- docs/6502-manual.md: the instruction set as it is documented, with no latches and no clock. It is
-- what src/cpu/cpu6502.cpp is checked against.
pub mod Instr
pub mod Cycles
pub mod Decode
pub mod Machine
pub mod Exec
pub mod Flow
pub mod Step
pub mod Trace
pub mod Memory
pub mod Penalties
