-- ===== src/Format.antt =====
-- The persistent formats: internal keys and their order, write batches and WAL fragments.
pub mod InternalKey
pub mod KeyComparator
pub mod LookupKey
pub mod WriteBatch
pub mod WalFormat
