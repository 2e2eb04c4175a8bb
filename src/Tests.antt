-- ===== src/Tests.antt =====
-- The theorems on concrete inputs.
mod Codecs
mod Keys
mod Batches
mod Logs
mod Streams
mod Edits
mod Tables
mod Blocks
mod Hashes
