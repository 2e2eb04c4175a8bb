-- ===== src/Tests/Codecs.antt =====
-- src/base/coding.cc, src/base/comparator.cc and src/base/crc32c.cc on concrete inputs.
use modern_level_db.Prelude.{◌+◌, ◌^◌, ◌<◌, ◌≤◌, ◌≡◌, refl, [], ◌∷◌, ◌++◌, length, some, arith}
use modern_level_db.Base.Error.{ok}
use modern_level_db.Base.Bytes.{AreBytes}
use modern_level_db.Base.Coding.{
  u32, u64, append_fixed, consume_fixed, varint_length, encode_varint_trusted, consume_varint,
  consume_varint_trusted, encode_length_prefixed_trusted, consume_length_prefixed,
  consume_length_prefixed_trusted,
}
use modern_level_db.Base.Coding.Fixed.{consume-append_fixed}
use modern_level_db.Base.Coding.Varint.{encode_varint_trusted_shape}
use modern_level_db.Base.Coding.VarintRoundTrip.{
  consume-encode_varint, consume_varint_takes, consume_varint_trusted_lem,
}
use modern_level_db.Base.Coding.Prefixed.{
  consume-encode_length_prefixed, consume_length_prefixed_trusted_lem,
}
use modern_level_db.Base.Comparator.{bytewise_compare}
use modern_level_db.Base.Comparator.Bytewise.{bytewise_compare-lexicographic, lexicographic}

consume-append_fixed_example :
    consume_fixed 4 "truncated fixed32" (append_fixed 4 [] 0x12345678 ++ 7 ∷ [])
    ≡ ok (0x12345678, 7 ∷ [])
consume-append_fixed_example =
    consume-append_fixed 4 0x12345678 "truncated fixed32" (7 ∷ []) (omega arith)

encode_varint_trusted_shape_example :
    AreBytes (encode_varint_trusted 300)
    × (length (encode_varint_trusted 300) ≡ varint_length 300)
    × (1 ≤ varint_length 300)
    × (varint_length 300 ≤ 5)
encode_varint_trusted_shape_example = encode_varint_trusted_shape u32 300 (omega arith)

consume-encode_varint_example :
    consume_varint u64 (encode_varint_trusted 300 ++ 9 ∷ []) ≡ ok (300, 9 ∷ [])
consume-encode_varint_example = consume-encode_varint u64 300 (9 ∷ []) (omega arith)

read_300 : consume_varint u32 (172 ∷ 2 ∷ 9 ∷ []) ≡ ok (300, 9 ∷ [])
unfolding consume_varint
read_300 = refl

consume_varint_takes_example : (300 < 2 ^ 32) × (1 < 3) × (3 ≤ 1 + 5)
consume_varint_takes_example = consume_varint_takes u32 (172 ∷ 2 ∷ 9 ∷ []) 300 (9 ∷ []) read_300

consume_varint_trusted_lem_example :
    consume_varint_trusted u32 (172 ∷ 2 ∷ 9 ∷ []) ≡ some (300, 9 ∷ [])
consume_varint_trusted_lem_example =
    consume_varint_trusted_lem u32 (172 ∷ 2 ∷ 9 ∷ []) 300 (9 ∷ []) read_300

consume-encode_length_prefixed_example :
    consume_length_prefixed (encode_length_prefixed_trusted (6 ∷ 7 ∷ []) ++ 8 ∷ [])
    ≡ ok (6 ∷ 7 ∷ [], 8 ∷ [])
consume-encode_length_prefixed_example =
    consume-encode_length_prefixed (6 ∷ 7 ∷ []) (8 ∷ []) (omega arith)

read_pair : consume_length_prefixed (2 ∷ 6 ∷ 7 ∷ 8 ∷ []) ≡ ok (6 ∷ 7 ∷ [], 8 ∷ [])
unfolding consume_length_prefixed consume_varint
read_pair = refl

consume_length_prefixed_trusted_lem_example :
    consume_length_prefixed_trusted (2 ∷ 6 ∷ 7 ∷ 8 ∷ []) ≡ some (6 ∷ 7 ∷ [], 8 ∷ [])
consume_length_prefixed_trusted_lem_example =
    consume_length_prefixed_trusted_lem (2 ∷ 6 ∷ 7 ∷ 8 ∷ []) (6 ∷ 7 ∷ []) (8 ∷ []) read_pair

bytewise_compare-lexicographic_example :
    bytewise_compare (1 ∷ 2 ∷ []) (1 ∷ 3 ∷ 0 ∷ []) ≡ lexicographic (1 ∷ 2 ∷ []) (1 ∷ 3 ∷ 0 ∷ [])
bytewise_compare-lexicographic_example =
    bytewise_compare-lexicographic (1 ∷ 2 ∷ []) (1 ∷ 3 ∷ 0 ∷ [])
