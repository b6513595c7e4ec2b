-- ===== src/Worker.antt =====
-- internal/worker: the loop that leases runs and executes them, and what it backs off by.
pub mod Backoff
pub mod Pool
pub mod Loops
pub mod Execution
pub mod Keeping
pub mod Safety
pub mod Isolation
pub mod Attempts
pub mod Onward
mod Samples
pub mod Fairness
pub mod Exclusion
pub mod Handlers
mod Tests
