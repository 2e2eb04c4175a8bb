-- ===== src/Table/BlockFormat.antt =====
-- src/table/block_format.h and src/table/block_format.cc: block handles, the footer of a table, and
-- stored blocks with their trailers.
pub mod Footers
pub mod Stored
use modern_level_db.Prelude.{
  ℕ, ◌+◌, ◌-◌, List, [], ◌∷◌, ◌++◌, Option, none, some, Bool, true, false, ◌&&◌, not, ltb, ◌==◌,
  if◌then◌else◌, length, take, drop, get_or, replicate,
}
use modern_level_db.Base.Error
use modern_level_db.Base.Error.{Result, ok, err, ◌>>=◌}
use modern_level_db.Base.Bytes.{write_at}
use modern_level_db.Base.Coding.{
  u64, append_varint, consume_varint, encode_fixed_trusted, decode_fixed_trusted,
}
use modern_level_db.Base.Crc32c.{Crc, crc32c, extend_crc32c, mask_crc32c}
use modern_level_db.Format.InternalKey.{last}
use modern_level_db.Table.Compression.{
  Snappy, Zstd, compression_none, compression_snappy, compression_zstd, decompress_block,
}

abbrev pub block_handle_max_encoded_size : ℕ
block_handle_max_encoded_size = 20

abbrev pub block_trailer_size : ℕ
block_trailer_size = 5

abbrev pub footer_size : ℕ
footer_size = 48

abbrev pub table_magic_number : ℕ
table_magic_number = 0xdb4775248b80fb57

abbrev pub footer_handles_size : ℕ
footer_handles_size = 40

pub record BlockHandle : Type 0 where
  pub offset : ℕ
  pub size : ℕ

pub record Footer : Type 0 where
  pub metaindex : BlockHandle
  pub index : BlockHandle

unfoldable pub append_block_handle : List ℕ → BlockHandle → List ℕ
append_block_handle output handle = append_varint (append_varint output handle.offset) handle.size

unfoldable pub consume_block_handle : List ℕ → Result (BlockHandle × List ℕ)
consume_block_handle input = elim (consume_varint u64 input) [
  | err _ ↦ err (Error.corruption "block handle offset is malformed")
  | ok (offset, after_offset) ↦ elim (consume_varint u64 after_offset) [
    | err _ ↦ err (Error.corruption "block handle size is malformed")
    | ok (size, rest) ↦ ok (record { offset = offset; size = size }, rest)
  ]
]

unfoldable pub encode_footer : Footer → List ℕ
encode_footer footer =
    let handles = append_block_handle (append_block_handle [] footer.metaindex) footer.index in
    write_at (write_at (replicate footer_size 0) 0 handles) (footer_size - 8)
      (encode_fixed_trusted 8 table_magic_number)

unfoldable pub padding_is_zero : List ℕ → Bool
padding_is_zero [] = true
padding_is_zero (byte ∷ padding) =
    let rest = padding_is_zero padding in if byte == 0 then rest else false

unfoldable pub decode_footer_handles : List ℕ → Result (Footer × List ℕ)
decode_footer_handles handles = do
  (metaindex, after_metaindex) ← consume_block_handle handles
  (index, rest) ← consume_block_handle after_metaindex
  ok (record { metaindex = metaindex; index = index }, rest)

-- On the 48 bytes of a footer.
unfoldable pub decode_footer : List ℕ → Result Footer
decode_footer encoded =
    if not (decode_fixed_trusted (last 8 encoded) == table_magic_number)
    then err (Error.corruption "table footer has a bad magic number")
    else (do
      (footer, padding) ← decode_footer_handles (take footer_handles_size encoded)
      if padding_is_zero padding
          then ok footer
          else err (Error.corruption "table footer has nonzero padding"))

-- Decoded contents: a view of the stored bytes, the caller's vector cut down to them, or
-- decompressed bytes.
pub data BlockContents : Type 0 where
  borrowed owned owned_decoded : List ℕ → BlockContents

unfoldable pub contents_data : BlockContents → List ℕ
contents_data (borrowed contents) = contents
contents_data (owned contents) = contents
contents_data (owned_decoded contents) = contents

unfoldable pub cacheable : BlockContents → Bool
cacheable (borrowed _) = false
cacheable (owned _) = true
cacheable (owned_decoded _) = true

-- A compression type that the switch accepts, as its byte.
unfoldable pub decode_compression_type : ℕ → Option ℕ
decode_compression_type encoded =
    if encoded == compression_none
    then some encoded
    else if encoded == compression_snappy
    then some encoded
    else if encoded == compression_zstd
    then some encoded
    else none

pub record StoredBlock : Type 0 where
  pub contents : List ℕ
  pub compression : ℕ

module _ (c : Crc) where
  unfoldable pub block_checksum : List ℕ → ℕ → ℕ
  block_checksum contents type = mask_crc32c (extend_crc32c c (crc32c c contents) (type ∷ []))

  unfoldable pub stored_block_checksum_matches : List ℕ → ℕ → Bool
  stored_block_checksum_matches stored contents_size =
      decode_fixed_trusted (last 4 stored)
      == mask_crc32c (crc32c c (take (contents_size + 1) stored))

  unfoldable pub validate_stored_block : List ℕ → Result StoredBlock
  unfolding stored_block_checksum_matches decode_compression_type
  validate_stored_block stored =
      let contents_size = length stored - block_trailer_size in
      if ltb (length stored) block_trailer_size
      then err (Error.corruption "stored block is shorter than its trailer")
      else if not (stored_block_checksum_matches stored contents_size)
      then err (Error.corruption "block checksum mismatch")
      else elim (decode_compression_type (get_or stored contents_size 0)) [
        | none ↦ err (Error.corruption "block has an unknown compression type")
        | some compression ↦
            ok (record { contents = take contents_size stored; compression = compression })
      ]

  unfoldable pub encode_block_trailer : List ℕ → ℕ → List ℕ
  unfolding block_checksum
  encode_block_trailer contents type =
      write_at (type ∷ replicate 4 0) 1 (encode_fixed_trusted 4 (block_checksum contents type))

  module _ (snappy : Snappy) (zstd : Zstd) where
    decompressed : List ℕ → ℕ → Result BlockContents
    decompressed contents type = do
      output ← decompress_block snappy zstd contents type
      ok (owned_decoded output)

    -- `DecodeStoredBlock` of a vector, which it takes over.
    unfoldable pub decode_stored_vector : List ℕ → Result BlockContents
    unfolding decompressed
    decode_stored_vector stored = do
      decoded ← validate_stored_block stored
      if decoded.compression == compression_none
          then ok (owned (take (length decoded.contents) stored))
          else decompressed decoded.contents decoded.compression

    -- `DecodeStoredBlock` of a view.
    unfoldable pub decode_stored_view : List ℕ → Result BlockContents
    unfolding decompressed
    decode_stored_view stored = do
      decoded ← validate_stored_block stored
      if decoded.compression == compression_none
          then ok (borrowed decoded.contents)
          else decompressed decoded.contents decoded.compression
