-- ===== src/WalCore.antt =====
-- crates/wal-core: the write-ahead log engine.
pub mod Error
pub mod Entry
pub mod Segment
pub mod Checkpoint
pub mod Wal
