-- ===== src/Sse.antt =====
-- internal/infrastructure/sse: connections, and the broker that indexes them and publishes to them.
pub mod Types
pub mod Connection
pub mod Broker
