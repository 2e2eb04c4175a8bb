-- ===== src/Table/TableBuilder.antt =====
-- src/table/table_builder.cc: the form in which a finished block is stored. The builder's own state
-- and its file are not modelled.
use modern_level_db.Prelude.{ℕ, List, ◌++◌, none, some}
use modern_level_db.Base.Crc32c.{Crc}
use modern_level_db.Table.Compression.{ℤ, Snappy, Zstd, compression_none, try_compress_block}
use modern_level_db.Table.BlockFormat.{encode_block_trailer}

module _ (c : Crc) (snappy : Snappy) (zstd : Zstd) where
  -- The bytes of `WriteBlock` and their type: compressed where that is worthwhile.
  unfoldable pub stored_form : List ℕ → ℕ → ℤ → List ℕ × ℕ
  stored_form contents compression zstd_level =
      elim (try_compress_block snappy zstd contents compression zstd_level) [
        | some compressed ↦ (compressed, compression)
        | none ↦ (contents, compression_none)
      ]

  -- What `WriteRawBlock` appends to the file.
  unfoldable pub raw_block : List ℕ → ℕ → List ℕ
  raw_block contents type = contents ++ encode_block_trailer c contents type

  unfoldable pub write_block : List ℕ → ℕ → ℤ → List ℕ
  unfolding stored_form raw_block
  write_block contents compression zstd_level =
      let (stored, type) = stored_form contents compression zstd_level in raw_block stored type
