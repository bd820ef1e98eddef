-- ===== src/Chunk.antt =====
-- src/chunk.rs: bytes in fixed-size chunks, windows into them, and queues of both.
pub mod Owned
pub mod View
pub mod Traits
pub mod Writer
pub mod Reader
pub mod OwnedWriter
pub mod Tests
