-- ===== src/Table/Compression.antt =====
-- src/table/compression.h and src/table/compression.cc. The Snappy and Zstd libraries are parameters:
-- the functions that the source calls, on whole byte strings. The level of Zstd is an `int`.
pub mod RoundTrip
use modern_level_db.Prelude.{
  ℕ, ◌-◌, ◌/◌, List, [], ◌∷◌, Option, none, some, Bool, true, false, ◌||◌, not, ltb, leb, ◌==◌,
  if◌then◌else◌, length,
}
use modern_level_db.Prelude.Options.{◌>>=◌}
use modern_level_db.Base.Error
use modern_level_db.Base.Error.{Result, ok, err, Status}

-- The integers, over the native numbers.
pub data ℤ : Type 0 where
  pos negsuc : ℕ → ℤ

abbrev pub compression_none : ℕ
compression_none = 0

abbrev pub compression_snappy : ℕ
compression_snappy = 1

abbrev pub compression_zstd : ℕ
compression_zstd = 2

-- `uncompress` gives the bytes that are written to a large enough destination.
pub record Snappy : Type 0 where
  pub max_compressed_length : ℕ → ℕ
  pub compress : List ℕ → List ℕ
  pub uncompressed_length : List ℕ → Option ℕ
  pub uncompress : List ℕ → Option (List ℕ)

-- `none` is a result for which `ZSTD_isError` holds.
pub record Zstd : Type 0 where
  pub compress_bound : ℕ → Option ℕ
  pub compress : ℤ → List ℕ → Option (List ℕ)
  pub content_size : List ℕ → ℕ
  pub decompress : List ℕ → Option (List ℕ)

abbrev pub max_block_size : ℕ
max_block_size = 4294967295

-- Between -5 and 22.
unfoldable pub is_zstd_level : ℤ → Bool
is_zstd_level (pos level) = leb level 22
is_zstd_level (negsuc level) = ltb level 5

unfoldable pub validate_compression_options : ℕ → ℤ → Status
unfolding is_zstd_level
validate_compression_options type zstd_level =
    if type == compression_none || type == compression_snappy
    then ok tt
    else if not (type == compression_zstd)
    then err (Error.invalid_argument "compression type is invalid")
    else if not (is_zstd_level zstd_level)
    then err (Error.invalid_argument "Zstd compression level is outside [-5, 22]")
    else ok tt

unfoldable pub compression_is_worthwhile : ℕ → ℕ → Bool
compression_is_worthwhile raw_size compressed_size = ltb compressed_size (raw_size - raw_size / 8)

-- Whether the output buffer can take the size; the buffer's own limit is above `MaxBlockSize`.
unfoldable pub prepare_output : ℕ → Bool
prepare_output size = leb size max_block_size

module _ (snappy : Snappy) (zstd : Zstd) where
  unfoldable pub compress_snappy_block : List ℕ → Option (List ℕ)
  unfolding prepare_output
  compress_snappy_block raw =
      if prepare_output (snappy.max_compressed_length (length raw))
      then some (snappy.compress raw)
      else none

  unfoldable pub compress_zstd_block : List ℕ → ℤ → Option (List ℕ)
  unfolding prepare_output
  compress_zstd_block raw zstd_level = do
    bound ← zstd.compress_bound (length raw)
    if prepare_output bound then zstd.compress zstd_level raw else none

  unfoldable pub compress_as : List ℕ → ℕ → ℤ → Option (List ℕ)
  unfolding compress_snappy_block compress_zstd_block
  compress_as raw requested zstd_level =
      if requested == compression_snappy
      then compress_snappy_block raw
      else if requested == compression_zstd
      then compress_zstd_block raw zstd_level
      else none

  -- The scratch buffer where the source answers true.
  unfoldable pub try_compress_block : List ℕ → ℕ → ℤ → Option (List ℕ)
  unfolding compress_as compression_is_worthwhile
  try_compress_block [] requested zstd_level = none
  try_compress_block (byte ∷ raw) requested zstd_level = do
    scratch ← compress_as (byte ∷ raw) requested zstd_level
    if compression_is_worthwhile (length (byte ∷ raw)) (length scratch) then some scratch else none

  unfoldable pub decompress_snappy_block : List ℕ → Result (List ℕ)
  decompress_snappy_block stored = elim (snappy.uncompressed_length stored) [
    | none ↦ err (Error.corruption "compressed Snappy block has an invalid length")
    | some uncompressed_size ↦
        if ltb max_block_size uncompressed_size
        then err (Error.corruption "compressed Snappy block is too large")
        else elim (snappy.uncompress stored) [
          | none ↦ err (Error.corruption "compressed Snappy block has invalid contents")
          | some output ↦ ok output
        ]
  ]

  unfoldable pub decompress_zstd_block : List ℕ → Result (List ℕ)
  decompress_zstd_block stored =
      let declared = zstd.content_size stored in
      if declared == 0 || ltb max_block_size declared
      then err (Error.corruption "compressed Zstd block has an invalid size")
      else elim (zstd.decompress stored) [
        | none ↦ err (Error.corruption "compressed Zstd block has invalid contents")
        | some output ↦
            if length output == declared
            then ok output
            else err (Error.corruption "compressed Zstd block has invalid contents")
      ]

  unfoldable pub decompress_block : List ℕ → ℕ → Result (List ℕ)
  unfolding decompress_snappy_block decompress_zstd_block
  decompress_block stored type =
      if type == compression_snappy
      then decompress_snappy_block stored
      else if type == compression_zstd
      then decompress_zstd_block stored
      else err (Error.corruption "block has an invalid compression type")
