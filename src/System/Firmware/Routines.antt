-- ===== src/System/Firmware/Routines.antt =====
-- src/system/monitor_firmware.cpp: the texts of the routines.
mod Console
mod Parse
mod Commands
mod Tape
pub use Console.*
pub use Parse.*
pub use Commands.*
pub use Tape.*
