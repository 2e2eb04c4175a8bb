-- ===== src/Table/BlockFormat/Stored.antt =====
-- src/table/block_format.cc: what the table builder stores for a block is decoded to the block.
use modern_level_db.Prelude.{
  ℕ, ◌+◌, ◌-◌, ◌≤◌, ◌<◌, ◌≡◌, refl, sym, ap, ◌∙◌, List, [], ◌∷◌, ◌++◌, none, some, true, false,
  length, take, drop, get_or, arith, append_assoc, append-nil, length-append, take-append,
  drop-append, ◌==◌, ltb, inl, inr, Option-cases,
}
use modern_level_db.Base.Error.{ok}
use modern_level_db.Base.Coding.{encode_fixed_trusted, decode_fixed_trusted}
use modern_level_db.Base.Coding.Fixed.{length-encode_fixed_trusted, decode-encode_fixed_trusted}
use modern_level_db.Base.Crc32c.{Crc, crc32c, extend_crc32c, mask_crc32c, mask_crc32c-lt}
use modern_level_db.Table.Compression.{
  ℤ, Snappy, Zstd, max_block_size, try_compress_block, decompress_block,
}
use modern_level_db.Table.Compression.RoundTrip.{IsSnappy, IsZstd, decompress-try_compress_block}
use modern_level_db.Table.BlockFormat.{
  BlockContents, borrowed, owned, owned_decoded, contents_data, block_checksum,
  stored_block_checksum_matches, validate_stored_block, decode_compression_type,
  encode_block_trailer, decode_stored_vector, decode_stored_view, decompressed,
}
use modern_level_db.Table.TableBuilder.{raw_block, write_block}

-- `Extend` over one string and then another is `Extend` over both, joined.
pub record IsStreaming (c : Crc) : Type 0 where
  pub extend-append :
      (crc : ℕ) (a b : List ℕ)
      → extend_crc32c c (extend_crc32c c crc a) b ≡ extend_crc32c c crc (a ++ b)

get_or-append : (xs : List ℕ) (y : ℕ) (ys : List ℕ) → get_or (xs ++ (y ∷ ys)) (length xs) 0 ≡ y
get_or-append [] y ys = refl
get_or-append (x ∷ xs) y ys = get_or-append xs y ys

module _ (c : Crc) (streaming : IsStreaming c) where
  encode_block_trailer_lem :
      (contents : List ℕ) (type : ℕ)
      → encode_block_trailer c contents type
        ≡ type ∷ encode_fixed_trusted 4 (mask_crc32c (crc32c c (contents ++ (type ∷ []))))
  unfolding encode_block_trailer block_checksum crc32c
  encode_block_trailer_lem contents type =
      let sum = mask_crc32c (extend_crc32c c (extend_crc32c c 0 contents) (type ∷ [])) in
      let size = length-encode_fixed_trusted 4 sum in
      let joined = streaming.extend-append 0 contents (type ∷ []) in
      rw size (rw append-nil (ap (λ (t : ℕ). type ∷ encode_fixed_trusted 4 (mask_crc32c t)) joined))

  module _ (contents : List ℕ) (type : ℕ) where
    abbrev sum : ℕ
    sum = mask_crc32c (crc32c c (contents ++ (type ∷ [])))

    abbrev stored : List ℕ
    stored = contents ++ (type ∷ encode_fixed_trusted 4 sum)

    length-stored : length stored ≡ length contents + 5
    length-stored = omega (
      arith,
      length-append contents (type ∷ encode_fixed_trusted 4 sum),
      length-encode_fixed_trusted 4 sum,
    )

    split-stored : stored ≡ (contents ++ (type ∷ [])) ++ encode_fixed_trusted 4 sum
    split-stored = sym (append_assoc contents (type ∷ []) (encode_fixed_trusted 4 sum))

    length-front : length (contents ++ (type ∷ [])) ≡ length contents + 1
    length-front = length-append contents (type ∷ [])

    checksum-stored : stored_block_checksum_matches c stored (length contents) ≡ true
    unfolding stored_block_checksum_matches
    checksum-stored =
        let at_end : length stored - 4 ≡ length (contents ++ (type ∷ [])) =
          omega (arith, length-stored, length-front) in
        let tail : drop (length stored - 4) stored ≡ encode_fixed_trusted 4 sum =
          ap (drop (length stored - 4)) split-stored
          ∙ drop-append _ (contents ++ (type ∷ [])) (encode_fixed_trusted 4 sum) at_end in
        let front : take (length contents + 1) stored ≡ contents ++ (type ∷ []) =
          ap (take (length contents + 1)) split-stored
          ∙ take-append _ (contents ++ (type ∷ [])) (encode_fixed_trusted 4 sum)
              (sym length-front) in
        let number : decode_fixed_trusted (encode_fixed_trusted 4 sum) ≡ sum =
          decode-encode_fixed_trusted 4 sum (mask_crc32c-lt (crc32c c (contents ++ (type ∷ [])))) in
        rw (tail, front, number) (ground arith)

    validate-stored :
        type ≤ 2
        → validate_stored_block c stored ≡ ok (record { contents = contents; compression = type })
    unfolding validate_stored_block
    validate-stored h =
        let size : length stored - 5 ≡ length contents = omega (arith, length-stored) in
        let long : ltb (length stored) 5 ≡ false = ground (arith, length-stored) in
        let kind = get_or-append contents type (encode_fixed_trusted 4 sum) in
        let front : take (length stored - 5) stored ≡ contents =
          ap (λ (k : ℕ). take k stored) size
          ∙ take-append (length contents) contents (type ∷ encode_fixed_trusted 4 sum) refl in
        let known : decode_compression_type type ≡ some type =
          unfold decode_compression_type in ground arith in
        rw (long, size, checksum-stored, kind, known)
          (ap (λ l. ok (record { contents = l; compression = type })) front)

  validate-raw_block :
      (snappy : Snappy) (zstd : Zstd) (contents : List ℕ) (type : ℕ)
      → type ≤ 2
      → validate_stored_block c (raw_block c snappy zstd contents type)
        ≡ ok (record { contents = contents; compression = type })
  unfolding raw_block
  validate-raw_block snappy zstd contents type h =
      rw (encode_block_trailer_lem contents type) (validate-stored contents type h)

  module _ (snappy : Snappy) (zstd : Zstd) (s : IsSnappy snappy) (z : IsZstd zstd) where
    decode-plain :
        (contents : List ℕ)
        → (decode_stored_vector c snappy zstd (raw_block c snappy zstd contents 0)
            ≡ ok (owned contents))
          × (decode_stored_view c snappy zstd (raw_block c snappy zstd contents 0)
              ≡ ok (borrowed contents))
    unfolding decode_stored_vector decode_stored_view
    decode-plain contents =
        let valid = validate-raw_block snappy zstd contents 0 (omega arith) in
        let cut : take (length contents) (raw_block c snappy zstd contents 0) ≡ contents =
          unfold raw_block in take-append (length contents) contents _ refl in
        (rw valid (ap (λ l. ok (owned l)) cut), rw valid)

    decode-compressed :
        (contents raw : List ℕ) (type : ℕ)
        → type ≤ 2
        → 0 < type
        → decompress_block snappy zstd contents type ≡ ok raw
        → (decode_stored_vector c snappy zstd (raw_block c snappy zstd contents type)
            ≡ ok (owned_decoded raw))
          × (decode_stored_view c snappy zstd (raw_block c snappy zstd contents type)
              ≡ ok (owned_decoded raw))
    unfolding decode_stored_vector decode_stored_view decompressed
    decode-compressed contents raw type h positive k =
        let valid = validate-raw_block snappy zstd contents type h in
        let other : (type == 0) ≡ false = ground arith in
        (rw (valid, other, k), rw (valid, other, k))

    written-plain :
        (raw : List ℕ) (compression : ℕ) (level : ℤ)
        → try_compress_block snappy zstd raw compression level ≡ none
        → write_block c snappy zstd raw compression level ≡ raw_block c snappy zstd raw 0
    unfolding write_block
    written-plain raw compression level e = ground (arith, e)

    written-compressed :
        (raw output : List ℕ) (compression : ℕ) (level : ℤ)
        → try_compress_block snappy zstd raw compression level ≡ some output
        → write_block c snappy zstd raw compression level
          ≡ raw_block c snappy zstd output compression
    unfolding write_block
    written-compressed raw output compression level e = ground (arith, e)

    -- Under a streaming checksum and compressors that restore what they took, a block of less than
    -- 2^32 bytes, stored with any compression type and level, is decoded to its bytes, from an
    -- owned vector and from a view.
    pub decode-write_block :
        (raw : List ℕ) (compression : ℕ) (level : ℤ)
        → length raw ≤ max_block_size
        → (vector : BlockContents) × (view : BlockContents) × (decode_stored_vector c snappy zstd
              (write_block c snappy zstd raw compression level)
            ≡ ok vector)
          × (decode_stored_view c snappy zstd (write_block c snappy zstd raw compression level)
              ≡ ok view)
          × (contents_data vector ≡ raw)
          × (contents_data view ≡ raw)
    unfolding contents_data
    decode-write_block raw compression level fits =
        elim (Option-cases (try_compress_block snappy zstd raw compression level)) [
          | inl e ↦
              let written = written-plain raw compression level e in
              let (vector, view) = decode-plain raw in
              (owned raw, borrowed raw, rw written vector, rw written view, refl, refl)
          | inr (output, e) ↦
              let written = written-compressed raw output compression level e in
              let (back, type, _) =
                decompress-try_compress_block snappy zstd s z raw output compression level fits e in
              let (vector, view) =
                decode-compressed output raw compression (omega arith) (omega arith) back in
              (owned_decoded raw, owned_decoded raw, rw written vector, rw written view, refl, refl)
        ]
