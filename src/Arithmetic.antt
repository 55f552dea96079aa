-- ===== src/Arithmetic.antt =====
-- What the bit tricks of src/cpu/ compute, in numbers.
pub mod TopBit
pub mod Sum
pub mod Compare
pub mod Rotate
pub mod Address
pub mod Status
pub mod StatusByte
