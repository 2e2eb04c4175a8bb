-- ===== src/Base.antt =====
-- The base library of the engine: errors, byte codecs, comparators, checksums.
pub mod ErrorCode
pub mod Error
pub mod Bytes
pub mod Coding
pub mod Crc32c
pub mod Comparator
pub mod Hash
