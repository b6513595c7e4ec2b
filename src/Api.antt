-- ===== src/Api.antt =====
-- internal/api: the HTTP surface of taskflow, over any implementation of the Store interface.
pub mod Text
pub mod Http
pub mod Handlers
pub mod Contract
pub mod Creation
pub mod Retry
pub mod Auth
pub mod Limiter
pub mod Router
pub mod Validity
pub mod System
mod Tests
pub mod Access
pub mod Listing
