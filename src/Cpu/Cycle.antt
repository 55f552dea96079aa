-- ===== src/Cpu/Cycle.antt =====
-- The four ticks of a T-state as one step, and what the handlers leave alone.
mod Frame
mod Ticks
mod Finish
pub mod Phases
pub use Frame.*
unfoldable pub use Ticks.*
unfoldable pub use Finish.*
