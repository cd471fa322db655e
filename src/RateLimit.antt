-- ===== src/RateLimit.antt =====
-- The rate limiters: pkg/ratelimit.
pub mod Zset
pub mod Sliding
pub mod Counted
pub mod Bound
pub mod Retry
mod Tests
