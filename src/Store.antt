-- ===== src/Store.antt =====
-- internal/store: the persistence contract and its Postgres implementation.
pub mod Tables
pub mod Json
pub mod Query
pub mod Post
pub mod Ensures
pub mod Keeps
pub mod Reliably
pub mod Jobs
pub mod Runs
pub mod Workers
pub mod Service
pub mod Reads
pub mod Valid
pub mod History
pub mod Lease
pub mod Onward
pub mod Effects
pub mod Reclaim
pub mod Ledger
pub mod Creation
pub mod Lookup
pub mod Connecting
mod Tests
