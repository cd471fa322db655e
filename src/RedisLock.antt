-- ===== src/RedisLock.antt =====
-- The lock in Redis: pkg/redislock/concurrency_lock.go.
pub mod Cell
pub mod Lock
pub mod Exclusive
pub mod Holders
mod Tests
