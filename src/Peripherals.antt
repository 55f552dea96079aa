-- ===== src/Peripherals.antt =====
-- src/peripherals/.
pub mod Tty
