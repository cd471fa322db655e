-- ===== src/Memory.antt =====
-- The policy of the assistant's long-term memory: internal/domain/ai/memory.go,
-- internal/domain/ai/memory_policy.go and internal/service/system/aiMemoryPolicy.go.
pub mod Types
pub mod Access
pub mod Store
pub mod Document
pub mod Ttl
pub mod Override
mod Tests
