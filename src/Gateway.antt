-- ===== src/Gateway.antt =====
-- services/api-gateway/src/api_gateway: the storage of idempotent responses, the calls of the
-- upstream services, the access checks, and the routes of orders and documents built on them.
pub mod Idempotency
pub mod Config
pub mod Upstream
pub mod Access
pub mod Routes
pub mod Steps
pub mod Owned
pub mod Follow
pub mod DocumentOutcome
pub mod DownloadOutcome
pub mod Repeated
pub mod Admission
mod Tests
mod RouteTests
