-- ===== src/Chunk/Bounds.antt =====
-- chunker.go: how long the pieces get.
pub mod Pieces
pub mod Packed
pub mod Sequence
pub mod Items
pub mod Chunks
