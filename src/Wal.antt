-- ===== src/Wal.antt =====
-- The write-ahead log over its physical format.
pub mod Reader
pub mod Writer
pub mod Replay
