-- ===== src/Metadata.antt =====
-- The metadata of a database: the records of its MANIFEST.
pub mod VersionEdit
