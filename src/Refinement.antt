-- ===== src/Refinement.antt =====
-- The cycle-stepped CPU implements the instruction set.
pub mod Finishes
pub mod Binary
pub mod Read
pub mod Unary
pub mod Load
pub mod Store
pub mod Implied
pub mod Flow
pub mod Routing
pub mod Instruction
pub mod Run
pub mod Traces
pub mod Timing
pub mod Takes
pub mod IndexedTiming
pub mod BranchTiming
pub mod ExactTiming
pub mod Stack
