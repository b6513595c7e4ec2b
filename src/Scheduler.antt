-- ===== src/Scheduler.antt =====
-- internal/scheduler: which jobs are due, and their promotion into pending runs.
pub mod Schedule
pub mod Due
pub mod Dependencies
pub mod Promoter
pub mod Promotion
pub mod Pass
pub mod Progress
pub mod Run
mod Tests
