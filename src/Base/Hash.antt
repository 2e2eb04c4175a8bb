-- ===== src/Base/Hash.antt =====
-- src/base/hash.cc: `Hash32`. A word that is loaded is the little-endian number of its bytes.
use modern_level_db.Prelude.{
  ℕ, zero, suc, ◌+◌, ◌*◌, ◌/◌, ◌%◌, ◌^◌, bit_or, bit_xor, List, [], ◌∷◌, ltb, if◌then◌else◌, length,
  take, drop,
}
use modern_level_db.Base.Coding.{decode_fixed_trusted}

abbrev pub multiplier : ℕ
multiplier = 0xc6a4a793

unfoldable pub mix_hash_word : ℕ → ℕ → ℕ
mix_hash_word hash word =
    let mixed = (hash + word) * multiplier % 2 ^ 32 in bit_xor mixed (mixed / 2 ^ 16)

-- The index is that of the first byte; the bytes are at most three.
unfoldable pub decode_hash_tail : List ℕ → ℕ → ℕ → ℕ
decode_hash_tail [] index tail = tail
decode_hash_tail (byte ∷ input) index tail =
    decode_hash_tail input (suc index) (bit_or tail (byte * 2 ^ (index * 8) % 2 ^ 32))

unfoldable pub mix_hash_tail : ℕ → ℕ → ℕ
mix_hash_tail hash tail =
    let mixed = (hash + tail) * multiplier % 2 ^ 32 in bit_xor mixed (mixed / 2 ^ 24)

unfoldable pub fold_hash_tail : List ℕ → ℕ → ℕ
fold_hash_tail [] hash = hash
fold_hash_tail (byte ∷ input) hash = mix_hash_tail hash (decode_hash_tail (byte ∷ input) 0 0)

-- The loop over eight bytes at a time, at most as often as the first number says; then what is left.
unfoldable pub mix_hash_words : ℕ → List ℕ → ℕ → List ℕ × ℕ
mix_hash_words zero cursor hash = (cursor, hash)
mix_hash_words (suc rounds) cursor hash =
    let words = decode_fixed_trusted (take 8 cursor) in
    let low = mix_hash_word hash (words % 2 ^ 32) in
    mix_hash_words rounds (drop 8 cursor) (mix_hash_word low (words / 2 ^ 32))

-- After the loop: one word of four bytes, if there is one, and the tail.
unfoldable pub finish_hash : List ℕ → ℕ → ℕ
finish_hash cursor hash =
    if ltb (length cursor) 4
    then fold_hash_tail cursor hash
    else fold_hash_tail (drop 4 cursor) (mix_hash_word hash (decode_fixed_trusted (take 4 cursor)))

-- The loop runs while eight bytes remain: once for each eight of the input.
unfoldable pub hash32 : List ℕ → ℕ → ℕ
hash32 input seed =
    let start = bit_xor seed (length input % 2 ^ 32 * multiplier % 2 ^ 32) in
    let (cursor, hash) = mix_hash_words (length input / 8) input start in finish_hash cursor hash
