-- ===== src/Table.antt =====
-- The table files: stored blocks, their compression, and the footer.
pub mod Blocks
pub mod Compression
pub mod TableBuilder
pub mod BlockFormat
pub mod BloomFilter
pub mod BlockBuilder
pub mod Block
