-- ===== src/Table/Compression/RoundTrip.antt =====
-- src/table/compression.cc: a block that was compressed is decompressed to what it was.
use modern_level_db.Prelude.{
  ℕ, ◌≤◌, ◌<◌, ◌≡◌, ◌≢◌, ◌⊎◌, ap, List, [], ◌∷◌, some, length, arith, ◌==◌, Bool-cases, inl, inr,
}
use modern_level_db.Prelude.Options.{>>=-eq-some}
use modern_level_db.Base.Error.{ok}
use modern_level_db.Table.Compression.{
  ℤ, Snappy, Zstd, compression_snappy, compression_zstd, max_block_size, compress_snappy_block,
  compress_zstd_block, compress_as, compression_is_worthwhile, try_compress_block,
  decompress_snappy_block, decompress_zstd_block, decompress_block,
}

-- What the documentation of Snappy says of its functions.
pub record IsSnappy (snappy : Snappy) : Type 0 where
  pub uncompressed_length-compress :
      (raw : List ℕ) → snappy.uncompressed_length (snappy.compress raw) ≡ some (length raw)
  pub uncompress-compress : (raw : List ℕ) → snappy.uncompress (snappy.compress raw) ≡ some raw

-- What the documentation of Zstd says of its functions: a frame of a single call stores its size.
pub record IsZstd (zstd : Zstd) : Type 0 where
  pub content_size-compress :
      (level : ℤ) (raw stored : List ℕ)
      → zstd.compress level raw ≡ some stored
      → zstd.content_size stored ≡ length raw
  pub decompress-compress :
      (level : ℤ) (raw stored : List ℕ)
      → zstd.compress level raw ≡ some stored
      → zstd.decompress stored ≡ some raw

module _ (snappy : Snappy) (zstd : Zstd) (s : IsSnappy snappy) (z : IsZstd zstd) where
  snappy-decompressed :
      (raw stored : List ℕ)
      → length raw ≤ max_block_size
      → compress_snappy_block snappy zstd raw ≡ some stored
      → decompress_snappy_block snappy zstd stored ≡ ok raw
  unfolding compress_snappy_block decompress_snappy_block
  snappy-decompressed raw stored fits h =
      let same : snappy.compress raw ≡ stored = ground arith in
      let sized = rw same at (s.uncompressed_length-compress raw) in
      let whole = rw same at (s.uncompress-compress raw) in ground (arith, sized, whole)

  zstd-decompressed :
      (raw stored : List ℕ) (level : ℤ)
      → length raw ≤ max_block_size
      → length raw ≢ 0
      → compress_zstd_block snappy zstd raw level ≡ some stored
      → decompress_zstd_block snappy zstd stored ≡ ok raw
  unfolding compress_zstd_block decompress_zstd_block
  zstd-decompressed raw stored level fits full h =
      let (bound, _, k) = >>=-eq-some (zstd.compress_bound (length raw)) _ h in
      let made : zstd.compress level raw ≡ some stored = ground arith in
      ground (
        arith,
        z.content_size-compress level raw stored made,
        z.decompress-compress level raw stored made,
      )

  as-decompressed :
      (raw stored : List ℕ) (type : ℕ) (level : ℤ)
      → length raw ≤ max_block_size
      → length raw ≢ 0
      → compress_as snappy zstd raw type level ≡ some stored
      → decompress_block snappy zstd stored type ≡ ok raw
  unfolding compress_as decompress_block
  as-decompressed raw stored type level fits full h = elim (Bool-cases (type == 1)) [
    | inl t ↦ rw t (snappy-decompressed raw stored fits (rw t at h))
    | inr f ↦ elim (Bool-cases (type == 2)) [
      | inl t ↦ rw (f, t) (zstd-decompressed raw stored level fits full (rw (f, t) at h))
      | inr g ↦ absurd (ground arith)
    ]
  ]

  -- A block that `TryCompressBlock` took is decompressed to itself, and was stored smaller.
  pub decompress-try_compress_block :
      (raw stored : List ℕ) (type : ℕ) (level : ℤ)
      → length raw ≤ max_block_size
      → try_compress_block snappy zstd raw type level ≡ some stored
      → (decompress_block snappy zstd stored type ≡ ok raw)
        × ((type ≡ compression_snappy) ⊎ (type ≡ compression_zstd))
        × (length stored < length raw)
  unfolding try_compress_block
  decompress-try_compress_block [] stored type level fits h = absurd (cc)
  decompress-try_compress_block (byte ∷ raw) stored type level fits h =
      let (scratch, p, q) = >>=-eq-some (compress_as snappy zstd (byte ∷ raw) type level) _ h in
      let same : scratch ≡ stored = ground arith in
      let made = rw same at p in
      (
        as-decompressed (byte ∷ raw) stored type level fits (omega arith) made,
        unfold compress_as in ground arith,
        unfold compression_is_worthwhile in ground (arith, ap length same),
      )
