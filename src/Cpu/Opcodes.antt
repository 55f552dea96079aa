-- ===== src/Cpu/Opcodes.antt =====
-- The opcode constants of src/cpu/cpu6502.cpp, by family.
mod Binary
mod Unary
mod Move
mod Implied
pub use Binary.*
pub use Unary.*
pub use Move.*
pub use Implied.*
