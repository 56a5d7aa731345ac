-- ===== src/Order.antt =====
-- order-service (services/order-service/src/order_service).
mod Status
mod Types
pub mod Repository
pub mod Service
pub mod Trail
pub mod Invariant
pub mod Reach
pub mod Refinement
pub mod Laws
pub use Status.*
pub use Types.*
mod Tests
