-- ===== src/Memory.antt =====
-- src/memory/: the devices and the bus.
pub mod Interface
pub mod Ram
pub mod Rom
pub mod Device
pub mod Bus
