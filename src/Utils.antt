-- ===== src/Utils.antt =====
-- src/utils/.
pub mod ProgramLoader
pub mod Log
