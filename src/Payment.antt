-- ===== src/Payment.antt =====
-- payment-service (services/payment-service/src/payment_service).
pub mod Provider
mod Types
pub mod Repository
pub mod Service
pub mod Laws
pub use Types.*
mod Tests
