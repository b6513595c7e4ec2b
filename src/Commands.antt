-- ===== src/Commands.antt =====
-- cmd/api, cmd/scheduler and cmd/worker: from the environment to what a process runs, and its end.
pub mod Process
pub mod Mains
pub mod Startup
pub mod Service
pub mod Shutdown
pub mod Working
mod Tests
