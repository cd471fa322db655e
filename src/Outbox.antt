-- ===== src/Outbox.antt =====
-- The transactional outbox: internal/repository/system/outboxRepo.go and
-- internal/infrastructure/outbox/processor.go.
pub mod Table
pub mod Relay
pub mod Rows
pub mod Exact
pub mod Retries
pub mod Reach
mod Tests
