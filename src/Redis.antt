-- ===== src/Redis.antt =====
-- packages/shared/src/mwp_common/redis_streams.py: the RESP protocol over bytes, the client's
-- connection, and the messages in Redis's answers.
pub mod Reader
pub mod Messages
pub mod Client
mod Tests
