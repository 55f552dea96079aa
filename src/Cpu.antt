-- ===== src/Cpu.antt =====
-- src/cpu/: the ALU and the cycle-stepped 6502.
pub mod Alu
pub mod Flags
pub mod State
pub mod Opcodes
pub mod Addressing
pub mod BinarySwitch
pub mod UnarySwitch
pub mod MoveSwitch
pub mod Handler
pub mod CaptureSwitch
pub mod CommitSwitch
pub mod Binary
pub mod Unary
pub mod Move
pub mod Read
pub mod Load
pub mod Store
pub mod Rmw
pub mod Implied
pub mod Stack
pub mod Jump
pub mod Capture
pub mod Commit
pub mod Clock
pub mod Cycle
