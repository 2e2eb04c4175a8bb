-- ===== src/Format/WalFormat/Decode.antt =====
-- src/format/wal_format.cc: `DecodeWalFragment` on what the fragmenter writes.
use modern_level_db.Prelude.{
  ℕ, ◌+◌, ◌*◌, ◌/◌, ◌%◌, ◌^◌, ◌<◌, ◌≤◌, ◌≡◌, refl, ◌∙◌, List, [], ◌∷◌, ◌++◌, Bool, true, length,
  take, drop, get_or, ◌≢◌, length-append, take-append, arith, bit_and, bit_or,
}
use modern_level_db.Prelude.Bits.{bit_or_above, mask_eight}
use modern_level_db.Base.Coding.{encode_fixed_trusted, decode_fixed_loop}
use modern_level_db.Base.Coding.Fixed.{
  decode-encode_fixed_trusted, encode_fixed_trusted-AreBytes, decode_fixed_loop_lem,
}
use modern_level_db.Base.Crc32c.{
  Crc, crc32c, mask_crc32c, extend_crc32c, unmask-mask_crc32c, mask_crc32c-lt, crc32c-lt,
  extend_crc32c-lt,
}
use modern_level_db.Format.WalFormat.{
  decoded, fragment, encode_header, is_fragment_type, read_wal_payload_size, wal_checksum_matches,
  decode_payload, decode_wal_fragment, maximum_wal_payload,
}

-- A 16-bit length from its two bytes.
size_bytes : (n : ℕ) → n < 2 ^ 16 → bit_or (bit_and n 0xff) (bit_and (n / 2 ^ 8) 0xff * 2 ^ 8) ≡ n
size_bytes n h =
    rw (mask_eight n, mask_eight (n / 2 ^ 8))
      (bit_or_above 8 (n % 256) (n / 256 % 256) (omega arith) ∙ omega arith)

-- The loop over the stored checksum reads the four bytes of a word.
stored_word :
    (stored : ℕ) → stored < 2 ^ 32 → decode_fixed_loop (encode_fixed_trusted 4 stored) 0 0 ≡ stored
stored_word stored h =
    decode_fixed_loop_lem _ (encode_fixed_trusted-AreBytes 4 stored)
    ∙ decode-encode_fixed_trusted 4 stored (omega arith)

fragment_type-ne-zero : (type : ℕ) → is_fragment_type type ≡ true → type ≢ 0
unfolding is_fragment_type
fragment_type-ne-zero type h = ground arith

module _ (c : Crc) (type : ℕ) (payload rest : List ℕ)
    (fits : length payload ≤ maximum_wal_payload) where
  abbrev written : List ℕ
  written = encode_header c type payload (crc32c c (type ∷ [])) ++ (payload ++ rest)

  size-written : read_wal_payload_size written ≡ decoded (length payload)
  unfolding read_wal_payload_size encode_header encode_fixed_trusted
  size-written = ground (arith, size_bytes (length payload), length-append payload rest)

  checksum-written : wal_checksum_matches c written payload ≡ true
  unfolding wal_checksum_matches encode_header encode_fixed_trusted
  checksum-written =
      let crc = extend_crc32c c (crc32c c (type ∷ [])) payload in
      let small : crc < 2 ^ 32 = extend_crc32c-lt c _ payload (crc32c-lt c (type ∷ [])) in
      ground
        (arith, stored_word (mask_crc32c crc) (mask_crc32c-lt crc), unmask-mask_crc32c crc small)

  payload-written : take (length payload) (drop 7 written) ≡ payload
  unfolding encode_header encode_fixed_trusted
  payload-written = take-append (length payload) payload rest refl

  type-written : get_or written 6 0 ≡ type
  unfolding encode_header encode_fixed_trusted
  type-written = refl

  -- A header for a fragment type and a payload of at most the maximum size, followed by the payload
  -- and any bytes, decodes to that type and payload, with the checksum verified or not.
  pub decode-encode_header :
      (verify_checksum : Bool)
      → is_fragment_type type ≡ true
      → decode_wal_fragment c written verify_checksum
        ≡ decoded (record {
          kind = fragment;
          type = type;
          payload = payload;
          encoded_size = 7 + length payload;
        })
  unfolding decode_wal_fragment decode_payload
  decode-encode_header verify_checksum h =
      let nonzero : type ≢ 0 = λ e. fragment_type-ne-zero type h e in
      ground (arith, size-written, type-written, payload-written, checksum-written)
