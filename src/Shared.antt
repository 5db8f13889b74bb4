-- ===== src/Shared.antt =====
-- The entities that both services share (shared/core/entities), and what a process prints.
pub mod Dto
pub mod Result
pub mod Console
