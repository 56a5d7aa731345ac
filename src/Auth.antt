-- ===== src/Auth.antt =====
-- services/auth-service/src/auth_service: the users' table, tokens and the endpoints.
pub mod Security
pub mod Users
pub mod Service
pub mod Schemas
mod Tests
