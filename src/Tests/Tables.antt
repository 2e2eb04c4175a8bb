-- ===== src/Tests/Tables.antt =====
-- src/table on concrete inputs: a Snappy that counts leading zeros, a Zstd that stores what it is given.
use modern_level_db.Prelude.{
  ℕ, zero, suc, ◌+◌, ◌≡◌, refl, sym, ap, List, [], ◌∷◌, ◌++◌, some, length, arith, replicate,
  length-append, drop, true, append-nil,
}
use modern_level_db.Base.Error.{ok}
use modern_level_db.Table.Compression.{pos, Snappy, Zstd}
use modern_level_db.Table.Compression.RoundTrip.{IsSnappy, IsZstd}
use modern_level_db.Table.BlockFormat.{
  Footer, BlockContents, encode_footer, decode_footer, decode_stored_vector, decode_stored_view,
  contents_data,
}
use modern_level_db.Table.BlockFormat.Footers.{decode-encode_footer}
use modern_level_db.Table.BlockFormat.Stored.{IsStreaming, decode-write_block}
use modern_level_db.Table.TableBuilder.{write_block}
use modern_level_db.Base.Crc32c.{extend_crc32c}
use modern_level_db.Table.BloomFilter.{new_policy, create_filter, key_may_match}
use modern_level_db.Table.BloomFilter.Matching.{key_may_match-create_filter}
use modern_level_db.Tests.Logs.{counting}

abbrev footer : Footer
footer = record {
  metaindex = record { offset = 300; size = 20 };
  index = record { offset = 325; size = 1000 };
}

decode-encode_footer_example :
    (decode_footer (encode_footer footer) ≡ ok footer) × (length (encode_footer footer) ≡ 48)
decode-encode_footer_example =
    decode-encode_footer footer (record { offset_lt = omega arith; size_lt = omega arith })
      (record { offset_lt = omega arith; size_lt = omega arith })

-- The number of leading zeros, and the bytes behind them.
pub leading : List ℕ → ℕ × List ℕ
leading [] = (zero, [])
leading (zero ∷ bytes) = (suc (leading bytes).0, (leading bytes).1)
leading (suc byte ∷ bytes) = (zero, suc byte ∷ bytes)

leading_lem : (bytes : List ℕ) → replicate (leading bytes).0 zero ++ (leading bytes).1 ≡ bytes
unfolding leading
leading_lem [] = refl
leading_lem (zero ∷ bytes) = ap (λ l. zero ∷ l) (leading_lem bytes)
leading_lem (suc byte ∷ bytes) = refl

abbrev pub squeeze : List ℕ → List ℕ
squeeze bytes = (leading bytes).0 ∷ (leading bytes).1

abbrev pub stretch : List ℕ → List ℕ
stretch [] = []
stretch (n ∷ rest) = replicate n zero ++ rest

abbrev pub counted : Snappy
counted = record {
  max_compressed_length = λ n. n + 1;
  compress = squeeze;
  uncompressed_length = λ stored. some (length (stretch stored));
  uncompress = λ stored. some (stretch stored);
}

pub counted-IsSnappy : IsSnappy counted
counted-IsSnappy = record {
  uncompressed_length-compress = λ raw. ap (λ l. some (length l)) (leading_lem raw);
  uncompress-compress = λ raw. ap some (leading_lem raw);
}

abbrev pub kept : Zstd
kept = record {
  compress_bound = λ n. some n;
  compress = λ level raw. some raw;
  content_size = λ stored. length stored;
  decompress = λ stored. some stored;
}

pub kept-IsZstd : IsZstd kept
kept-IsZstd = record {
  content_size-compress = λ level raw stored e. let same : stored ≡ raw = cc in ap length same;
  decompress-compress = λ level raw stored e. sym e;
}

counting_on :
    (crc : ℕ) (a b : List ℕ)
    → extend_crc32c counting (extend_crc32c counting crc a) b ≡ extend_crc32c counting crc (a ++ b)
unfolding extend_crc32c
counting_on crc [] b = refl
counting_on crc (x ∷ a) [] = ap (λ l. extend_crc32c counting crc (x ∷ l)) (sym (append-nil a))
counting_on crc (x ∷ a) (y ∷ b) = omega (arith, length-append a (y ∷ b))

pub counting-IsStreaming : IsStreaming counting
counting-IsStreaming = record { extend-append = counting_on }

abbrev raw : List ℕ
raw = 0 ∷ 0 ∷ 0 ∷ 0 ∷ 0 ∷ 0 ∷ 7 ∷ []

decode-write_block_example :
    (vector : BlockContents) × (view : BlockContents) × (decode_stored_vector counting counted kept
        (write_block counting counted kept raw 1 (pos 3))
      ≡ ok vector)
    × (decode_stored_view counting counted kept (write_block counting counted kept raw 1 (pos 3))
        ≡ ok view)
    × (contents_data vector ≡ raw)
    × (contents_data view ≡ raw)
decode-write_block_example =
    decode-write_block counting counting-IsStreaming counted kept counted-IsSnappy kept-IsZstd raw 1
      (pos 3) (omega arith)

key_may_match-create_filter_example :
    key_may_match
      (98 ∷ [])
      (drop 1 (create_filter (new_policy 10) ((97 ∷ []) ∷ (98 ∷ []) ∷ (99 ∷ []) ∷ []) (7 ∷ [])))
    ≡ true
key_may_match-create_filter_example =
    key_may_match-create_filter 10 ((97 ∷ []) ∷ []) (98 ∷ []) ((99 ∷ []) ∷ []) (7 ∷ [])
