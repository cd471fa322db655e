-- ===== src/Chunk.antt =====
-- The chunker of memory documents: internal/infrastructure/ai/memory/chunker.go.
pub mod Lines
pub mod Blocks
pub mod Units
pub mod Splitter
pub mod Merge
pub mod Lossless
pub mod Ink
pub mod Bounds
mod Tests
